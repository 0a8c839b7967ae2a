-- ===== src/Lib.antt =====
-- A model of the Retro Rewind channel and of its runtime extension: which files of the SD card
-- replace which files of the disc, the settings, the updates of the pack, the network tests and
-- the server status.
--
-- The channel (source/) reads the Riivolution XML of the pack, registers the file replacements of
-- the enabled patches and puts them into memory; the runtime extension (runtime-ext/source/) runs
-- within the game, where its DVD functions look a path up among those replacements and read the
-- files from the SD card. shared/ holds what both use.
--
--   Result       source/result.h, source/result.c: what a call returns, or how it fails
--   Hash         shared/hash.c, and tolower, to_lowercase and strcicmp of runtime-ext/source/util.c
--   Vec          source/vec.c; Vec.Contents and Vec.Remove say which list a vector holds
--   Riivo        shared/riivo.h: the data that the two programs share
--   PatchLoader  source/loader/riivo_patch_loader.c: registering replacements (Register, Distinct,
--                Files, Patches), the walk over the XML (Xml) and building what the game gets (Build)
--   Dvd          runtime-ext/source/dvd.c: looking a path up (Search), marked entry numbers (EntryNum),
--                opening, reading and closing (Files)
--   SettingsFile source/settingsfile.c: the settings on the SD card
--   Version      source/versionutils.c, and the version file of source/update/update.c (File)
--   VersionsFile source/update/versionsfile.c: the texts of updates and of deleted files
--   Update       source/update/update.c: unpacking an archive (Extract, Stays, Paths), the updates one after
--                the other (Loop, Unversioned, Order) and what each installs (Installed, Unpacking,
--                Installing)
--   Stun         source/stun.c: the wait for a response (Waiting, Deadline, Answers), the messages (Message, Walk,
--                Encoding, Others) and the calls (Client, Mapping)
--   NatTest      source/nat_test.c: the NAT test (Verdict, Completion) and the ping test (Ping, Tally, Times)
--   Console      rrc_con_ascii_safe of source/console.c
--   ServerStatus source/server_status.c: the JSON text (Positive, Reading, Quoting, Parsing) and the
--                cached status (Fetch, Cache)
--   PrivatePort  source/private_port.c: the port from the console's settings (Secret)
--   UpnpErrors   source/upnp_error_codes.c: the registry of error codes; where an object ends (Nesting), its
--                strings (Strings, Entry) and the lookup (Registry)
--   Prelude      tests, lists, words, texts and integers that the others share
--
-- Each C function has one definition of its name, without its prefix; a routine in its middle (a
-- loop, a branch) is a definition of its own. State is passed explicitly: the patch loader's
-- vectors are the record Loader, the statics of dvd.c are the record Runtime, those of stun.c the
-- record Client, those of server_status.c the record Cached. A u32 is a number with `% 2 ^ 32`
-- written out; an int that indexes an array is a number, and its overflow and a read out of range
-- are `fault`. A failed RRC_ASSERT, RRC_FATAL or RTE_FATAL is `fatal`, an rrc_result with `err`
-- set is `error`.
--
-- The channel reads its settings from the SD card (SettingsFile) and, when it updates the pack,
-- the texts of the server that name versions (VersionsFile), which it compares with the installed
-- one (Version); the updates between are downloaded, unpacked and recorded one by one (Update).
-- The NAT test asks STUN servers through Stun; a server status is made printable by Console before
-- it is cached.
--
-- What happens outside is an event or an answer: the turns of a receiving loop, with the time at
-- which each begins (Stun.Turn); a transfer of curl (ServerStatus.Fetch.Transfer); what the SD
-- card, curl and libzip answer, which may depend on all that was done before (Update.Host over
-- Update.Log).
--
-- `%d` prints with fuel for ten digits, enough for an int. The binary search of dvd.c has fuel,
-- one more than the entries; that is enough, since each round halves the range or leaves the loop.
-- A wait for a STUN response has fuel for one packet more than its turns, the loop over attributes
-- for one attribute a byte of the packet, rrc_con_ascii_safe for one character a byte of its
-- memory; each consumes that much in a round. Other loops recurse on their list.
--
-- Parameters: malloc's success (`allocates`), the files that can be opened on the SD card
-- (`exists`), the C library's `qsort`, the bytes that `fwrite` gets onto the card (`accepts`), the
-- vendored SD library (record Sd), the game's own DVD functions (record Game), what the XML
-- library gives of each element (the records of PatchLoader.Xml), `rand`, the network and name
-- resolution (Stun.Client.Host), and what the card, curl and libzip answer (Update.Host), the
-- content that ISFS reads (PrivatePort.Settings).
--
-- Not modelled: the vendored libraries under runtime-ext/vendor, source/pngu, the menus and what
-- is shown, UPnP but for its error codes, the loaders of binaries and the hardware glue, the
-- estimate of the download time, and which memory the strings of the arena lie in.
pub mod Prelude
pub mod SettingsFile
pub mod VersionsFile
pub mod Version
pub mod Result
pub mod Hash
pub mod Vec
pub mod Riivo
pub mod Dvd
pub mod PatchLoader
pub mod Stun
pub mod NatTest
pub mod Console
pub mod ServerStatus
pub mod Update
pub mod PrivatePort
pub mod UpnpErrors
