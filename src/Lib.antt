-- ===== src/Lib.antt =====
-- Drasl: a server that stands in for the Minecraft authentication, session and services servers,
-- with a web front end. This library models its Go code and proves what makes it correct.
--
-- The parts and their files:
--   Model    model.go: the rows of the database and their validation, identifiers, access tokens
--            (`MakeAccessToken` is make_access_token, `GetClient` is get_client).
--   Database gorm over SQLite. A call is a query, or a statement of `Statement`, over the tables.
--            The database itself is a record `Database` of calls that may fail at any time, with
--            the laws `IsLawful`: a query gives rows that meet its condition, a statement that
--            succeeds has the effect of its SQL and keeps the unique keys, one that fails has
--            none. Database/Memory is a database with these laws.
--   Auth     auth.go: /authenticate, /refresh, /validate, /signout, /invalidate.
--   Textures common.go: skins and capes, whose files stand in two directories under their hashes
--            while the users' rows name the hashes. `Kind` tells the two copies of each function
--            apart (`SetSkinAndSave` and `SetCapeAndSave` are set_texture_and_save).
--   Cache    common.go: `CachedGet` over what its cache still has.
--   Skins    common.go: the textures property of a profile, from the user's own files, the fallback
--            servers (Skins/Fallback) or the default files (Skins/Default).
--   Session  session.go: a player joins a server, and the server asks whether the player joined.
--   Account  account.go: the identifiers of players' names.
--   Services services.go: handlers behind a bearer token; names and textures. Services/Profile is
--            `getServicesProfile`, Services/Certificates the signed key pairs of players,
--            Services/Keys `/publickeys` with the keys that `setup` collects, and Services/Answers
--            the handlers that only read the user's row.
--   Injector authlib_injector.go: the root of the API.
--   Front    front.go: access by the browser's token, login and logout, registration with invites
--            or with a challenge shown in a skin, deletion, administration. Front/Fields and
--            Front/Update are `FrontUpdate`, Front/Pages the handlers that show a page.
--   Server   main.go: errors and the rate limit; Server/Setup is the end of `setup`.
--   System   main.go: every request that changes the state, and sequences of them.
--   Config   config.go: records, defaults and `CleanConfig`.
--   Util     util.go. Errors, Http, Flow and App are what the parts share: Go's errors, replies,
--            handlers with early returns, and the `App` with the libraries that it calls.
--   Examples concrete instances of the theorems.
--
-- A handler works on a state that it passes on: the tables, the tables and the texture files, or
-- these and the cookies that it sets. What a handler changed before an early return stays changed.
-- A transaction keeps its statements pending until `commit`. The parts meet in that state and in
-- `get_client`, by which every API finds out who calls. System puts the handlers side by side over
-- one state. A page is the data that its template gets.
--
-- Text is a list of bytes, a number a natural number, and a time a number of nanoseconds since 1970.
-- The code has no arithmetic near the bounds of its integers; the only width written out is that of
-- the eight bytes of a time in a certificate. Loops are recursive on their lists. `Wrap` has fuel,
-- one pass more than the text has bytes, which is enough since each pass but the last takes a byte.
-- `big.Int.Bytes` has as many passes as there are digits, of which two make a byte.
--
-- Libraries are the parameter `Externals`: hashes, scrypt, signed tokens, UUIDs, URLs, JSON, base64,
-- paths, random numbers and PNG; `KeyTools` and `KeyFormats` are those of RSA keys. What is relied on
-- is `AreTokens` for signed tokens, `IsBounded` for random numbers, and `IsReadable` for pictures,
-- besides the laws of the database, `Answers` and `Finds` where it has to answer, and `Writes` for
-- the disk.
-- `CachedGet` is an argument of the handlers that call it, as its cache may drop entries at any time.
--
-- Not modelled: echo's routing, rewriting, logging and limits by themselves, templates and scripts,
-- the messages that a page reads back from cookies, cookies' attributes, the constant answers, and
-- the files of the configuration, the key and the database. Two requests at the same time are not
-- modelled, and so no mutex. Handlers that only read are not among the requests of System.
pub mod Prelude
pub mod Flow
pub mod Util
pub mod Errors
pub mod Model
pub mod Config
pub mod App
pub mod Database
pub mod Http
pub mod Auth
pub mod Textures
pub mod Cache
pub mod Skins
pub mod Session
pub mod Account
pub mod Services
pub mod Injector
pub mod Front
pub mod Server
pub mod System
pub mod Examples
