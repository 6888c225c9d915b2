-- ===== src/Lib.antt =====
-- A model of sauceDUST, a reverse image search that crawls Danbooru with several nodes.
--
-- The nodes lease ranges of post numbers from a table in PostgreSQL (Lease), download the images
-- under a limit on how many jobs run at once (Limiter), and
-- hand the vectors to the control node (Ingest), whose index they are kept in (FlatIndex). The crawler
-- (Crawler) drives this; Danbooru, RateLimit and ClientHello are the ways of its requests. Domain has
-- the values that they share, Auth the account of the operator.
--
-- * Limiter (Limiter.antt and below) is internal/app/adaptive.go. The record `Limiter` has the
--   fields of the Go struct, the channel `slots` being the number of tokens in it; one function
--   stands for each method. Limiter/Interleaving cuts the methods where the mutex does not protect
--   the channel, Limiter/Calls runs them whole. Negative configuration values count as 0, which
--   `NewLimiter` treats alike.
-- * Lease (Lease.antt and below) is internal/adapter/postgres/lease.go, nodes.go and ranges.go with
--   internal/domain/domain.go: the rows of `crawl_ranges` and `crawl_states` for one site and
--   scope. A call is a function on the table, a transaction that rolls back returns the table it
--   began with. `AcquireBackfillRange` runs as a whole there and in Op of History; Interleaved cuts it
--   where it commits, so that other calls come in between, and Races has the case that goes wrong. Which rows other transactions have locked is an argument, so is the set of
--   nodes that are online. Rows are kept newest first. `PlanGapRanges` runs on fuel, two rounds
--   more than the gap's upper end, and each round goes down by at least one.
-- * RateLimit (RateLimit.antt and below) is internal/adapter/danbooru/ratelimit.go: the image host's
--   limit on requests a second. The calls stand in the order in which they take the mutex, each with
--   the time that it reads there.
-- * FlatIndex (FlatIndex.antt and below) is internal/adapter/flatindex: Codes and Scan are
--   flatindex.go's `encode` and scan.go, Files is collection.go's `append` and `openFiles`.
--   `sort.Slice`, the reader of the codes and the order in which the workers finish are arguments;
--   TopOf.IsSort, Nearest.IsReader and Workers.IsOrder say what is relied on of them, and Examples
--   has an insertion sort that meets the first. Differing and Hamming are about the distance of
--   codes, Slices, Slots, Nearest, Parts and Workers about the scan, Crash and Appended about the
--   files. The scan's outer loop runs on fuel, one round more than the end of its range, and each
--   round goes up by at least one slot. A write that fails, or a crash, has written a prefix of its
--   bytes.
-- * Crawler (Crawler.antt and below) is internal/app/crawler.go with crawler_capacity.go,
--   ingest_capacity.go and `RangeSizeFor` of adaptive.go. What the source and the indexer return is
--   an argument, the calls of the lease repository are a list. Quota cuts `reserve` into its atomic
--   operations; elsewhere a round runs without other workers in between, and `stop` is set.
-- * ClientHello (ClientHello.antt and below) is internal/adapter/netpath/clienthello.go. The loop over
--   the extensions runs on fuel, two rounds more than the buffer has bytes; each round that does not
--   end the search goes at least four bytes on, or sets the reader's error, which ends it.
--
-- * Danbooru (Danbooru.antt and below) is internal/adapter/danbooru/danbooru.go and post.go. The
--   parent is `PostsInRange`, on fuel of two rounds more than the range has numbers, and each round goes
--   down by at least one; Pages.IsSite is what is relied on of the site. Requests is `get`, `observe`
--   and `Download`, where the surroundings of each try are given; Tags is post.go.
-- * Domain (Domain.antt and below) is internal/domain. Texts has what is used of the packages strings
--   and path, on lists of characters; Source, Bot, Hash and Vectors are source.go, bot.go, hash.go, and
--   vector.go with embed.go; Named says which vector and which float32 the test of a batch means. A float32 is its 32 bits, a hash its bytes.
-- * Ingest (Ingest.antt and below) is internal/app/ingest.go. Submit gives the list of the calls to the
--   stores with their outcomes; Backed is about the order of backup and index, Gathering, Sent and
--   Marked about the mark at the end. Table is the part of internal/adapter/postgres/images.go on the
--   table of vectors. Rebuild is `RebuildIndex`; each of its loops runs on fuel, a round more than the
--   table has rows, and each round marks at least one row.
-- * Indexer (Indexer.antt and below) is internal/app/indexer.go: the tests before the goroutines, and in
--   Steps their locked parts, which follow one another in any order. What the processing of one post
--   returns is the choice between two steps.
-- * Retry (Retry.antt and below) is the queue of posts to be tried again: the rest of
--   internal/adapter/postgres/lease.go, with the retries' part of nodes.go and ranges.go. Retry.antt
--   has EnqueueRetries and LeaseRetries, Retry/Report.antt the reports of a node and the commands.
--   `locked` of `lease_retries` are the rows that SKIP LOCKED passes over; rows that are ready at
--   the same time are taken in one fixed order, of which nothing is proved.
-- * Search (Search.antt and below) is internal/app/search.go. `sort` stands for sort.SliceStable, of
--   which Exact.IsSort says what is relied on; Query is the choice of the model, the cache, and
--   `ByImage` itself.
-- * Auth (Auth.antt and below) is internal/adapter/httpapi/auth.go: Requests has the handlers, Guesses
--   is about failed logins, with the parts of concurrent handlers that hold the mutex in any order,
--   Sessions about a change of the password. The handlers run as a whole elsewhere.
-- * Chain (Chain.antt and below) is internal/adapter/netpath/netpath.go: the paths by which a request
--   may go out, `Do` and what is remembered for each host, with `Probe` in Probe. What a path answers
--   is an argument, `sort` stands for sort.Slice.
-- * Bot (Bot.antt and below) is internal/app/bot.go: the parent is `handle`, Loop is `Run`, cut after a
--   number of rounds, Format the text of an answer. Each place of a call has one answer.
-- * Files has what three places do to replace a file; Thumbs (Thumbs.antt and below) is
--   internal/adapter/filestore/filestore.go and Release (Release.antt and below)
--   internal/release/release.go, which use it. path/filepath and strconv are arguments.
-- * Config (Config.antt and below) is internal/config/config.go and webfile.go: what is required of
--   settings, Lists the lists written in one text, WebFile the settings of the web page, Exposed the
--   test that internal/adapter/httpapi/server.go makes before it starts. Packages net and strconv
--   are arguments; fields that these functions do not read are left out.
--
-- Not modelled: the network, the operating system and the database driver themselves; the rest of
-- the HTTP interface, the console, the commands, the reading of the environment, and the other
-- adapters (Qdrant, the embedding worker, Telegram, dialing); arithmetic of floating point numbers.
pub mod Prelude
pub mod Limiter
pub mod Lease
pub mod FlatIndex
pub mod RateLimit
pub mod Crawler
pub mod ClientHello
pub mod Danbooru
pub mod Domain
pub mod Ingest
pub mod Auth
pub mod Indexer
pub mod Search
pub mod Retry
pub mod Chain
pub mod Bot
pub mod Thumbs
pub mod Files
pub mod Release
pub mod Config
