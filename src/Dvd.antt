-- ===== src/Dvd.antt =====
-- runtime-ext/source/dvd.c: the DVD functions of the game, which look a path up among the file
-- replacements and read those from the SD card.
pub mod Search
pub mod EntryNum
pub mod Files
mod Tests
