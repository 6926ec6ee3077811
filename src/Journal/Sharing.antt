-- ===== src/Journal/Sharing.antt =====
-- A page that a writer and a reader map at the same time: `write_frame_full` of
-- journal/JournalWriter.cpp store by store, and between any two stores a client that goes over the page
-- with `locateFrame`, the getters of Frame and `passFrame` (journal/journal.h, journal/Page.h). A store
-- becomes visible after those before it, and a byte is never seen half written.
pub mod Invariant
pub mod Writing
pub mod Reading
pub mod Safety
use option_hedge.Base.{ℕ, ◌+◌, ◌^◌, ◌<◌, ◌≡◌, Option, none, some, List, [], ◌∷◌, ◌++◌}
use option_hedge.Base.Memory.{Mem, set_byte}
use option_hedge.Journal.Page.{Page, pass_frame, locate_writable_frame, locate_readable_frame}
use option_hedge.Journal.Writer.{FrameArgs}
use option_hedge.Journal.Log.{Entry}
use option_hedge.Journal.Log.Append.{IsArgs, entry_of}
use option_hedge.Journal.Cursor.Read.{read_entry}
use option_hedge.Journal.Stores.{Store, frame_stores}

-- Where the writer is in `write_frame_full`: in no call, or in one of which these stores are left.
pub data Pc : Type 0 where
  idle : Pc
  storing : FrameArgs → ℕ → List Store → Pc

pub record Shared : Type 0 where
  pub mem : Mem
  pub writer : Page
  pub pc : Pc
  -- what the writer was called to write so far
  pub calls : List Entry
  pub reader : Page
  -- what `locateFrame` answered to the reader, while it reads that frame
  pub seen : Option ℕ
  -- what the reader has read so far
  pub got : List Entry

pub data Step (s : Shared) : Shared → Type 0 where
  -- A call finds room on the page. Its arguments are values of their C types.
  call :
      (fuel : ℕ) (q : Page) (frame : ℕ) (a : FrameArgs) (time : ℕ)
      → s.pc ≡ Pc.idle
      → locate_writable_frame fuel s.writer s.mem ≡ some (q, some frame)
      → IsArgs a
      → frame + 2 ^ 32 < 2 ^ 64
      → time < 2 ^ 64
      → Step s (record s {
        writer = q;
        pc = Pc.storing a time (frame_stores frame a time);
        calls = s.calls ++ entry_of a time ∷ [];
      })
  put :
      (a : FrameArgs) (time : ℕ) (w : Store) (ws : List Store)
      → s.pc ≡ Pc.storing a time (w ∷ ws)
      → Step s (record s { mem = set_byte w.0 w.1 s.mem; pc = Pc.storing a time ws })
  return :
      (a : FrameArgs) (time : ℕ)
      → s.pc ≡ Pc.storing a time []
      → Step s (record s { writer = pass_frame s.writer s.mem; pc = Pc.idle })
  look : s.seen ≡ none → Step s (record s { seen = locate_readable_frame s.reader s.mem })
  read :
      (frame : ℕ)
      → s.seen ≡ some frame
      → Step s (record s {
        reader = pass_frame s.reader s.mem;
        seen = none;
        got = s.got ++ read_entry frame s.mem ∷ [];
      })

-- Both start on a page with the log `es`, the writer behind it and the reader in front.
abbrev pub start : Mem → Page → Page → List Entry → Shared
start m w r es = record {
  mem = m;
  writer = w;
  pc = Pc.idle;
  calls = es;
  reader = r;
  seen = none;
  got = [];
}

pub data Reach (s : Shared) : Shared → Type 0 where
  here : Reach s s
  later : {t u : Shared} → Reach s t → Step t u → Reach s u
