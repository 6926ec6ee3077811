-- ===== src/Paged/Engine/Threads.antt =====
-- The threads of paged/PageEngine.cpp: the comm thread, which tests a message without the mutex and
-- serves it under the mutex, the socket thread of paged/PageSocketHandler.cpp, which handles a request
-- under the mutex, and the clients, which write to the table in between.
pub mod Answer
pub mod Holds
pub mod Refine
use option_hedge.Base.{
  ℕ, suc, ◌+◌, ◌%◌, ◌≡◌, ◌≢◌, ◌<◌, Bool, true, false, Option, none, some, if◌then◌else◌,
}
use option_hedge.Base.Text.{Text}
use option_hedge.Os.{Os, M, ok, ◌>>=◌, ◌>>◌, modify}
use option_hedge.Paged.Msg.{
  PageCommMsg, CommTable, raw, requesting, set_msg, is_status, max_comm_user_number,
}
use option_hedge.Paged.Engine.{SystemWriter, Engine, reg_journal, reg_client}
use option_hedge.Paged.Engine.Files.{initiate_page}
use option_hedge.Paged.Engine.Requests.{give_up_old}
use option_hedge.Paged.Engine.Slots.{IsRaw}

pub data Thread : Type 0 where
  comm_thread socket_thread : Thread

-- `paged_mtx`, as the thread that holds it. To lock it while it is held has no result: it waits.
unfoldable pub acquire_mutex : Thread → Option Thread → Option (Option Thread)
acquire_mutex t none = some (some t)
acquire_mutex t (some u) = none

unfoldable pub release_mutex : Option Thread → Option Thread
release_mutex m = none

-- Where the comm thread is in its round at an index: in front of the test, of the mutex, of the answer,
-- of the store of the last page number, and of the release.
pub data CommPc : Type 0 where
  testing entering serving noting leaving : ℕ → CommPc

pub data SocketPc : Type 0 where
  accepting handling returning : SocketPc

-- Between acquire_mutex and release_mutex.
abbrev pub comm_inside : CommPc → Bool
comm_inside (testing i) = false
comm_inside (entering i) = false
comm_inside (serving i) = true
comm_inside (noting i) = true
comm_inside (leaving i) = true

abbrev pub socket_inside : SocketPc → Bool
socket_inside accepting = false
socket_inside handling = true
socket_inside returning = true

-- `msg->last_page_num = msg->page_num`
unfoldable pub note_last : ℕ → CommTable → CommTable
note_last idx t = set_msg idx (record (t idx) { last_page_num = (t idx).page_num }) t

module _ (os : Os) (system : SystemWriter os) where
  -- From the lock up to `msg->status = initiate_page (*msg)`.
  unfoldable pub answer_request : ℕ → M (Engine os system) (Unit {0})
  answer_request idx e =
      let msg = e.comm idx in
      (give_up_old os system msg >> initiate_page os system msg >>= λ status.
      modify (λ f. record f { comm = set_msg idx (record msg { status = status }) f.comm }))
        e

  abbrev pub next_index : ℕ → Engine os system → ℕ
  next_index idx e = (idx + 1) % (e.max_idx + 1)

  pub record Threads : Type 0 where
    pub engine : Engine os system
    pub comm : CommPc
    pub socket : SocketPc
    pub mutex : Option Thread

  -- A step of one thread, or a client's write to a message in use, which is not one to a message that
  -- waits for its answer, nor one between the answer's two stores.
  pub data Step (s : Threads) : Threads → Type 0 where
    tests :
        (idx : ℕ)
        → s.comm ≡ testing idx
        → Step s (record s {
          comm =
              if is_status (s.engine.comm idx).status requesting
              then entering idx
              else testing (next_index idx s.engine);
        })
    enters :
        (idx : ℕ) (m : Option Thread)
        → s.comm ≡ entering idx
        → acquire_mutex comm_thread s.mutex ≡ some m
        → Step s (record s { comm = serving idx; mutex = m })
    answers :
        (idx : ℕ) (f : Engine os system)
        → s.comm ≡ serving idx
        → answer_request idx s.engine ≡ ok (tt, f)
        → Step s (record s { comm = noting idx; engine = f })
    notes :
        (idx : ℕ)
        → s.comm ≡ noting idx
        → Step s (record s {
          comm = leaving idx;
          engine = record (s.engine) { comm = note_last idx s.engine.comm };
        })
    leaves :
        (idx : ℕ)
        → s.comm ≡ leaving idx
        → Step s
            (record s { comm = testing (next_index idx s.engine); mutex = release_mutex s.mutex })
    accepts :
        (m : Option Thread)
        → s.socket ≡ accepting
        → acquire_mutex socket_thread s.mutex ≡ some m
        → Step s (record s { socket = handling; mutex = m })
    registers :
        (name : Text) (pid : ℕ) (is_writer : Bool) (r : Option (Text × ℕ)) (f : Engine os system)
        → s.socket ≡ handling
        → reg_client os system name pid is_writer s.engine ≡ ok (r, f)
        → Step s (record s { socket = returning; engine = f })
    joins :
        (name : Text) (k : ℕ)
        → s.socket ≡ handling
        → k < max_comm_user_number
        → IsRaw s.engine.comm k
        → Step s (record s { socket = returning; engine = (reg_journal os system name s.engine).1 })
    returns :
        s.socket ≡ returning
        → Step s (record s { socket = accepting; mutex = release_mutex s.mutex })
    writes :
        (idx : ℕ) (msg : PageCommMsg)
        → ¬ IsRaw s.engine.comm idx
        → msg.status ≢ raw
        → (s.engine.comm idx).status ≢ requesting
        → s.comm ≢ noting idx
        → Step s (record s { engine = record (s.engine) { comm = set_msg idx msg s.engine.comm } })

  -- Both threads at the beginning of their loops.
  abbrev pub up : Engine os system → Threads
  up e = record { engine = e; comm = testing 0; socket = accepting; mutex = none }

  pub data Run (s : Threads) : Threads → Type 0 where
    here : Run s s
    next : {t u : Threads} → Run s t → Step t u → Run s u
