-- ===== src/Lib.antt =====
-- Server space manager: a daemon that scans a Linux host and its Docker engine for the sizes of
-- filesystems, paths, logs, volumes and images, stores them in SQLite, sends alerts by Telegram,
-- asks a language model to review the trends, and shows all this on a dashboard.
--
-- How the parts work together: a scan's samples are inserted into the store and evaluated against
-- the alert rules, whose messages go to the notifier; the review reads growth and anomalies from
-- the store, asks the model, and writes findings back; the HTTP server shows the last scan and the
-- findings, guards the pages by sessions, and starts scans and reviews by its triggers, as the
-- Telegram bot does by its commands.
--
--   Prelude            shared names; int64 with its wrap-around, Go maps, sort.Slice, float64
--   Prelude/Human      humanBytes (internal/alert/rules.go, internal/api/server.go,
--                      cmd/ssm/main.go) and human (internal/aireview/aireview.go)
--   Store              internal/store/sqlite.go: the tables, Insert, InsertFindings,
--                      RecentFindings, LatestScan, Latest, Prune; GrowthSince in Store/Growth and
--                      BaselineAnomalies in Store/Anomalies
--   Alert/Rules        internal/alert/rules.go: Evaluate
--   Alert/Telegram     internal/alert/telegram.go: Send and its dedupe map
--   Alert/CommandBot   internal/alert/telegram_bot.go: handle and the loop over the
--                      updates; Run with its requests in Alert/CommandBot/Wire, reply with the
--                      notifier in Alert/CommandBot/Replies
--   Api/Sessions       internal/api/server.go: newSession, validSession, revokeSession
--   Api/Gate           internal/api/server.go: auth, handleLogin, handleLogout
--   Api/TokenBucket    internal/api/server.go: tokenBucket
--   Api/Triggers       internal/api/server.go: triggerHandler
--   Api/Dashboard      internal/api/server.go: handleFindings, handleSummary, topN
--   Api/Router         internal/api/server.go: Routes, secHeaders, New, SetSnapshot, over the whole
--                      Server and its histories
--   Api/Ask            internal/api/server.go: rateLimit and handleAsk; buildPrompt in Api/Prompt
--   AiReview           internal/aireview/aireview.go: RunReview; RunDigest in
--                      AiReview/Digest, parseFindings in AiReview/Parse
--   Llm                internal/llm/vllm.go: New and Chat
--   Config             internal/config/config.go: Load
--   Scanner/Docker     internal/scanner/docker.go: Scan over the answers of the
--                      Engine; its requests in Scanner/Docker/Engine
--   Scanner/Host       internal/scanner/host.go: Scan, walkPath, statFS, ignored
--   Scanner/Paths      what it uses of filepath, and the tree that WalkDir walks
--   Scanner/Stamps     that every sample of a scan has its time
--   Scanner/BigFiles   internal/scanner/bigfiles.go: consider and sorted
--   Main/Scan          cmd/ssm/main.go: runScan, and the restore at the start of main
--   Main/Daemon        cmd/ssm/main.go: the scans, reviews and restarts of the program
--   Main/Commands      cmd/ssm/main.go: the handlers of the bot, the message at the start
--   Main/Jobs          cmd/ssm/main.go: buildScheduler, notifyManual, the triggers' messages
--   Main/Report        cmd/ssm/main.go: buildScanReport; buildStatusLine in Main/Status, usageBar
--                      and signedHumanBytes in Main/Bars
--   Version            internal/version/version.go: String
--   Tests              the theorems at concrete values
--
-- Names are those of the source in snake_case. A method that changes its receiver takes it and
-- returns it; what it asks of the outside (a request, a call of the database, the clock, the random
-- source) is an argument. Times are numbers of nanoseconds. int64 arithmetic wraps around (add64,
-- sub64, mul64); int counters of slices are natural numbers. float64 is an interface without laws,
-- and a theorem that needs the order of ratios takes it as a hypothesis. sort.Slice is its contract,
-- a sorted permutation; where it leaves the order of equal entries open, so do the theorems. A Go
-- map is an association list without repeated keys. The loop of humanBytes runs on 6 rounds of fuel,
-- each of which divides by 1024; an int64 is below 1024^7, and the first division comes before
-- them. The loop of walkPath over the folders above a file runs on one round of fuel for each name of the path and
-- one more.
--
-- SQL queries are read as what they say of the tables; it is assumed that the text in which the
-- driver stores a time is ordered as the times are, and that strftime reads it, and the
-- differences of sizes that a query forms are those of int64. Not modelled: the HTTP, JSON and
-- YAML libraries, the HTML pages, the texts of the log, the system calls, and in cmd/ssm/main.go
-- the flags, the signals, the opening of the database and the start of the goroutines. A history
-- of the Server takes its requests one after the other; a history of the daemon takes the end of
-- each job as one step.
pub mod Prelude
pub mod Store
pub mod Alert
pub mod Api
pub mod AiReview
pub mod Config
pub mod Scanner
pub mod Version
pub mod Tests
pub mod Main
pub mod Llm
