-- ===== src/Tests.antt =====
-- Concrete systems and the theorems at concrete inputs.
mod Toy
mod JournalTests
mod PagedTests
mod ClientTests
mod UtilTests
mod RunTests
mod TurnTests
mod SocketTests
mod ProgramTests
mod SharingTests
mod ThreadTests
mod LocalTests
