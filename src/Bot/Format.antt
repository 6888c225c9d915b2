-- ===== src/Bot/Format.antt =====
-- internal/app/bot.go: `FormatSearchReply`. `show` prints a number in decimal digits, `percent` a score
-- as a percentage with one digit after the point.
use text.Mathlib.Text.{starts_with}
use Prim.Native.String.{◌++◌ as ◌+++◌}
use sauce_dust.Prelude.{
  ℕ, ◌-◌, ltb, ◌==◌, ◌||◌, if◌then◌else◌, Bool, Option, none, some, List, [], ◌∷◌, length, take,
}
use sauce_dust.Domain.Source.{ℤ}
use sauce_dust.Domain.Texts.{Text, ◌=t=◌, is_empty_text, join, lower, trim_space}
use sauce_dust.Domain.Bot.{post_label}
use sauce_dust.Ingest.{Image}
use sauce_dust.Bot.{BotButton, BotReply, plain}

-- A hit with its image; `none` is the hash distance -1.
pub record ShownHit : Type 0 where
  pub image : Image
  pub score : ℕ
  pub hash_distance : Option ℕ
  pub exact : Bool

unfoldable pub rating_text : Text → Text
rating_text rating =
    let r = lower (trim_space rating) in
    if r =t= "g" || r =t= "general"
    then "General"
    else if r =t= "s" || r =t= "sensitive"
    then "Sensitive"
    else if r =t= "q" || r =t= "questionable"
    then "Questionable"
    else if r =t= "e" || r =t= "explicit"
    then "Explicit"
    else if is_empty_text r
    then "Unrated"
    else rating

abbrev pub is_link : Text → Bool
is_link url = starts_with url "http://" || starts_with url "https://"

unfoldable pub linked : List BotButton → List BotButton
linked [] = []
linked (b ∷ bs) = let rest = linked bs in if is_link b.url then b ∷ rest else rest

abbrev pub button : Text → Text → BotButton
button l u = record { label = l; url = u }

abbrev pub candidate_buttons : Image → List BotButton
candidate_buttons img =
    button "Original post" img.canonical_url
    ∷ button "Artist source" img.source_url
    ∷ button "Preview" img.preview_url
    ∷ []

unfoldable pub reply_buttons : Image → List BotButton
unfolding linked
reply_buttons img = linked (candidate_buttons img)

module _ (show percent : ℕ → Text) where
  unfoldable pub visible_tags : List Text → ℕ → Text
  visible_tags tags limit =
      if length tags == 0
      then ""
      else if ltb limit (length tags)
      then join ", " (take limit tags) +++ (" and " +++ (show (length tags - limit) +++ " more"))
      else join ", " tags

  abbrev pub label_of : Image → Text
  label_of img = post_label show img.source_site img.source_post_id img.artist_tags

  unfoldable pub other_lines : List ShownHit → Text
  other_lines [] = ""
  other_lines (h ∷ hs) =
      "  " +++ (label_of h.image +++ (" (" +++ (percent h.score +++ ("%)\n" +++ other_lines hs))))

  unfoldable pub runners_up : List ShownHit → Text
  unfolding other_lines
  runners_up [] = ""
  runners_up (h ∷ hs) = other_lines hs

  abbrev pub distance_text : Option ℕ → Text
  distance_text none = ""
  distance_text (some d) = " · hash distance " +++ (show d +++ " bits")

  abbrev pub unless_empty : Text → Text → Text → Text
  unless_empty before t after = if is_empty_text t then "" else before +++ (t +++ after)

  unfoldable pub reply_text : ShownHit → List ShownHit → Text
  unfolding visible_tags runners_up rating_text
  reply_text top hits =
      (if top.exact
        then "Found the original.\n\n"
        else "Similar picture. It may not be the original.\n\n")
      +++ (label_of top.image
          +++ ("\nMatch "
              +++ (percent top.score
                  +++ ("%"
                      +++ (distance_text top.hash_distance
                          +++ ("\nRating "
                              +++ (rating_text top.image.rating
                                  +++ ("\n"
                                      +++ (unless_empty "\n" (visible_tags top.image.tags 12) "\n"
                                          +++ unless_empty "\nOther candidates\n" (runners_up hits)
                                              "")))))))))

  unfoldable pub format_search_reply : ℤ → List ShownHit → BotReply
  unfolding reply_text reply_buttons
  format_search_reply chat [] =
      plain chat "No matching picture was found.\nIt may not have been collected yet."
  format_search_reply chat (top ∷ hits) = record (plain chat (reply_text top (top ∷ hits))) {
    buttons = reply_buttons top.image;
  }

  -- The result of a search, formatted; an error stays one.
  abbrev pub formatted : ℤ → Option (List ShownHit) → Option BotReply
  formatted chat none = none
  formatted chat (some hits) = some (format_search_reply chat hits)
