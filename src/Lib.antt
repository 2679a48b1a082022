-- ===== src/Lib.antt =====
-- A model of DDBOT-Nexus, a QQ bot that subscribes chat groups to the news of sites, and theorems
-- about its core: what a group is subscribed to, who may command the bot, the database below both,
-- how a subscription is configured, what becomes of a notification, and how much a group hears.
--
-- How the parts interact. Everything that outlives a run is kept in a key-value database. The
-- helpers of lsp/buntdb give each operation a transaction, or join the one that an outer operation
-- has opened; the state managers of lsp/permission and lsp/concern are built of these helpers, with
-- the keys of lsp/buntdb/key.go. The value of a subscription is a set of types,
-- lsp/concern_type/type.go. The ids that are subscribed to go round in the queue of
-- utils/emitQueue.go, for the crawlers of the sites; what these have seen is kept by the state manager
-- of each site. Before a notification is sent to a group, the hooks of lsp/concern/config.go decide
-- on it. Then lsp/notify.go takes it: it asks lsp/stateManager.go for a mute, the registry of
-- lsp/concern for the site, and lsp/groupux/manager.go, which keeps its state in memory, drops
-- duplicates, collects digests and holds messages in the quiet hours; it adds the mentions with the
-- writer of lsp/mmsg and hands the message to the sender.
--
-- Which file models which part:
--   ConcernType     lsp/concern_type/type.go. `split_parts` is the function split, `split` the method
--                   Split. A Go map used as a set is a list with no repetition.
--   Buntdb/Key      lsp/buntdb/key.go: one constructor of KeyFamily for each function of a key.
--   Buntdb/Options  lsp/buntdb/option.go.
--   Buntdb/ShortCut lsp/buntdb/shortcut.go. A `Session` is what a helper finds: no
--                   database, an idle one, or the transaction in the goroutine's storage. A helper is
--                   an action, from a session to a reply and a session; RWCover is rw_cover, SetInt64
--                   is set_int64, and so on.
--   Permission      lsp/permission: roles and the block list in Permission, the switches of commands
--                   and silence in Permission/Switches, the requirement options in
--                   Permission/Require.
--   Concern         lsp/concern: keyset.go in Concern/KeySet, stateManager.go in
--                   Concern/StateManager, config_at.go in Concern/Config, and config.go,
--                   config_filter.go, config_notify.go and hook.go in Concern/Config/Hooks. Of
--                   stateManager.go, the stored configuration is in Concern/Config/Operate and the
--                   dispatch of an event in Concern/Dispatch.
--   Groupux         lsp/groupux: types.go in Groupux/Types, policy.go in Groupux/Policy, manager.go in
--                   Groupux/Manager (cooldowns and deduplication) and Groupux/Manager/Buffers
--                   (digests, quiet hours, overrides).
--   Buntdb/Json     lsp/buntdb/shortcut.go, GetJson and SetJson, over a `Codec` for the JSON of a type.
--   Version         lsp/version, the stored version and DoMigration, and the map of lsp/migrations.go.
--   Utils           utils/helper.go: matching of a prefix, retries, joining, names of parameters.
--   Caches          utils/blockCache and utils/expirable.
--   Concern/Registry lsp/concern/registry.go. A `Center` is the state of `center`; a
--                   registration that panics in the code ends in a `Panic` here.
--   BotState        lsp/stateManager.go: modes, mutes, invitors, pictures, requests.
--   Mmsg            lsp/mmsg/writer.go: a message under construction and its split into messages.
--   Notify          lsp/notify.go: a notification from its arrival to the sender, and due digests. A
--                   call of sendGroupMessageWithLimit is an `Outgoing`; Notify/AfterSend is the function
--                   that runs once such a message is sent.
--   Parser          lsp/parser/parser.go, ArgSplit of utils/helper.go, and the prefixes of commands of
--                   lsp/cfg/config.go.
--   Sites           the stateManager.go and keyset.go of lsp/bilibili (Sites/Bilibili), and of
--                   lsp/acfun, lsp/weibo, lsp/douyu, lsp/huya and lsp/youtube (Sites/Others); Validate of
--                   lsp/bilibili/config.go in Sites/Config.
--   EmitQueue       utils/emitQueue.go: the list with its cursor, and what one round of the loop picks.
--   Prelude         native numbers, lists, texts as lists of bytes, decimal numerals, trimming.
--   Tests           the theorems at concrete inputs.
--
-- What is a parameter. The database package, github.com/tidwall/buntdb, is the record BuntDb of
-- Buntdb/Interface, with its documented behaviour in BuntDbLaws; Buntdb/Memory shows that it can
-- hold. JSON (the record Codec, with its round trip in Encodes, and ConfigJson), the LRU cache
-- (the record Lru, with LruLaws), what lies around a notification, the callback of a site before
-- it included (the record Surroundings of Notify), the answers of the chat client, the hooks and
-- the generator of a site (the record Site of Concern/Dispatch), the packing of a message element,
-- the functions of a migration, time.ParseDuration, the digest of a fingerprint, the order in
-- which a map is visited, the members of a chat group, and what the store holds of a group's
-- overrides are arguments of the definitions that use them. Numbers of groups and users are
-- integers; where a theorem needs it, it says that they are in the range of int64. Texts are
-- bytes; trimming and lowering treat ASCII. Durations and moments are counts of nanoseconds.
--
-- Bounds and fuel. Every loop but one is structural recursion on a list or a count, so it cannot run
-- out. DoMigration runs as long as the map of migrations has one for the stored version; it is on
-- fuel, and Version/Finishes shows how much is enough where every migration raises the version.
-- Decimal digits are produced with as much fuel as the number plus one, which is enough since each
-- step makes the number smaller.
--
-- What is not modelled: the listing of administrators, which parses keys in base 0; the channels
-- and goroutines of the dispatch; the timer and the channel of the emit queue, whose calls by a state
-- manager are values here; the functions of the migrations themselves; the sender of messages, what a site
-- does when it is told that one was sent, the
-- rendering of digests and templates; cookies and stored messages of a site; commands and replies;
-- the crawlers; locks and logging; and the copies of other projects, miraigo, bot and lsp/template.
pub mod Prelude
pub mod ConcernType
pub mod Buntdb
pub mod Permission
pub mod Concern
pub mod Groupux
pub mod EmitQueue
pub mod Version
pub mod Utils
pub mod Caches
pub mod Parser
pub mod Sites
pub mod Notify
pub mod Mmsg
pub mod BotState
pub mod Tests
