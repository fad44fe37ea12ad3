-- ===== src/Lib.antt =====
-- magic-jigsaw: the game rules of a jigsaw game's server, written in Go.
--
-- Handlers (internal/api) call methods of repository.Store (internal/repository), which run SQL on
-- PostgreSQL; rules without state stand in internal/models and internal/httpx. The tables are the
-- only state that the methods share.
--
-- The files:
-- - Prelude, Lists: Go's `int` as 64-bit integers, Boolean tests, and lemmas on lists.
-- - Db: the tables that the methods read and write (Db/Schema), the clauses of SQL on lists of rows
--   (Db/Table), and a method of the store as a function of the tables, which returns a value or an
--   error (Db/Action). Every call to the driver may fail: the environment says which do, and the
--   theorems hold for every environment unless they say otherwise. A transaction keeps the tables
--   from before it for its rollback. Db/Reads: methods that only read; Db/Writes: what updates and
--   deletes keep.
-- - Http: a handler as a sequence of the store's methods that ends in an answer or a status
--   (Http/Handler), and what leaves the tables as they are (Http/Leaves).
-- - Points: internal/repository/users.go (GetXP, AddXP) and internal/repository/checkin.go
--   (AddUnlockPoints, GetUnlockPoints, SpendUnlockPoints, CheckIn), with 32-bit columns;
--   LevelFromXP of internal/models/models.go (Points/Levels), whose loop ends at level 100; and
--   handleGetPoints and handleSpendPoints of internal/api/points.go (Points/Handler). The calendar
--   (Points/Calendar, Points/Streaks): GetCheckinDates of internal/repository/checkin.go, and
--   clientDay and the state that buildCheckinState of internal/api/checkin.go makes, with
--   time.Weekday as a parameter. The loop of the streak has 181 rounds of fuel, which are enough,
--   since no more days than these are asked for.
-- - Purchases: internal/purchases/catalog.go and internal/purchases/purchases.go
--   (Purchases/Catalog), internal/repository/purchases.go (Purchases/Store: CreditPurchase;
--   Purchases/Ledger: how it can end; Purchases/Replays: sequences of calls), and
--   handleConfirmPurchase of internal/api/points.go (Purchases/Handler). The clients of Apple's and
--   Google's stores are a record, Verifier; strings.TrimSpace and len are another, Texts.
-- - Dungeon: internal/models/dungeon.go (Dungeon/Layout: ValidateDungeonLayout against a description
--   of well-formed layouts) and internal/repository/dungeon.go (Dungeon/Statements: the SQL;
--   Dungeon/Store: MoveDungeon, RetreatDungeon, CompleteDungeonMonster, CompleteDungeon;
--   Dungeon/Moves and Dungeon/Quests: how each of them can end; Dungeon/Walks: what holds of all
--   saved progress; Dungeon/History: sequences of calls), and handleCompleteDungeon of
--   internal/api/dungeons.go (Dungeon/Handler; Dungeon/Credit: the XP that handlers credit);
--   Dungeon/Admin: UpdateDungeon.
-- - Secret: internal/models/hidden_secret.go (Secret/Rules: ValidateHiddenSecret, TileRowCol) and
--   internal/repository/hidden_secret.go (Secret/Statements, Secret/Store: RevealHiddenSecretTile;
--   Secret/Reveal and Secret/Outcome: how it can end; Secret/Sound and Secret/Board: what holds of saved boards;
--   Secret/Admin: UpdateHiddenSecret; Secret/Galleries: sequences of their calls), and
--   handleRevealHiddenSecretTile of internal/api/hidden_secrets.go (Secret/Handler).
-- - Expedition: internal/models/expedition.go (Expedition/Tiers) and the campaign and the gate of
--   internal/api/expedition.go (Expedition/Campaign, Expedition/Gate); StartExpeditionLevel,
--   CompleteExpeditionLevel and FailExpeditionLevel of internal/repository/expedition.go
--   (Expedition/Play; Expedition/Rows: lemmas), in sequences of calls (Expedition/Clears). The
--   players' handlers of internal/api/expedition.go stand in Expedition/Handlers, and how they can
--   end in Expedition/Restarts, Sessions and Completions. Expedition/Levels: how admins add, remove
--   and configure levels, in internal/repository/expedition.go (Statements, Store, Queries, Changes,
--   Numbering) and in internal/api/expedition.go (Handlers, Playable, Removal,
--   Refinement, Bounds).
-- - Stories: internal/repository/stories.go (Stories/Statements, Stories/Store: the pages that
--   admins add and change, and CompleteStoryPage; Stories/Pages: how it can end; Stories/Rows and
--   Stories/Order: sequences of calls), and handleCompleteStoryPage of internal/api/stories.go
--   (Stories/Handler).
-- - Names: internal/api/displayname.go (Names/Draw, Names/Finish), with rand.Read as a
--   parameter. The fuel is the number of its calls, which is enough once they have yielded eight
--   bytes below the cutoff: each byte below it adds a character, and the name has eight.
-- - Paging: internal/httpx/paging.go and pageOf of internal/api/expedition.go; strconv.Atoi is a
--   parameter.
-- - Tests: the theorems and the definitions at concrete inputs.
--
-- A method runs alone: the row locks (FOR UPDATE) and transactions make the writes to one player's
-- progress follow one another, and the sequences of Dungeon/History are the orders in which they do.
-- A method returns a value or an error: what the source returns beside an error is left out, since
-- the handlers answer by the error (MoveDungeon's result, CheckIn's true).
-- Rows stand in the order of their creation, columns that only record a time are left out, and a
-- UUID is a number, with 0 for uuid.Nil.
--
-- Not modelled: the router, the middleware, JSON and the decoding of requests, authentication,
-- logging, metrics, configuration, storage of images, the clients of the two stores and the
-- generated documentation, which hold no rules of the game; the rate limiter, whose balances are
-- float64 and depend on its rounding; and, of the rest of the game, the daily challenges and their
-- dates in the calendar, the collection, statistics and achievements, the lists of rows, the reading
-- and the creation of stories, the upload of a level's image, and the creation and the deletion of
-- dungeons and hidden secrets.
pub mod Prelude
pub mod Lists
pub mod Db
pub mod Points
pub mod Dungeon
pub mod Secret
pub mod Expedition
pub mod Names
pub mod Stories
pub mod Purchases
pub mod Http
pub mod Paging
pub mod Tests
