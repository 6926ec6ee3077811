-- ===== src/Paged/Engine/Reach.antt =====
-- The states that the engine of paged/PageEngine.cpp reaches: its operations and its clients' writes to
-- the table as steps, and what all of them keep.
use option_hedge.Base.{ℕ, ◌≡◌, ◌≢◌, ◌<◌, Bool, Option}
use option_hedge.Base.Text.{Text}
use option_hedge.Os.{Os, ok}
use option_hedge.Paged.Msg.{PageCommMsg, raw, set_msg, max_comm_user_number}
use option_hedge.Paged.Engine.{SystemWriter, Engine, reg_journal, reg_client}
use option_hedge.Paged.Engine.Slots.{IsRaw}
use option_hedge.Paged.Engine.Requests.{serve, exit_client}
use option_hedge.Paged.Engine.Sound.{
  IsSound, writes-IsSound, serves-IsSound, exits-IsSound, registers-IsSound, joins-IsSound,
}

module _ (os : Os) (system : SystemWriter os) (dump : Text → Text → ℕ → ℕ → ℕ → Text) where
  -- A step that does not fail. A journal is registered while a message among the first 1000 is raw,
  -- and a client writes a message that is not raw, and does not make it raw.
  pub data Step (e : Engine os system) : Engine os system → Type 0 where
    registers :
        (name : Text) (pid : ℕ) (is_writer : Bool) (r : Option (Text × ℕ)) (f : Engine os system)
        → reg_client os system name pid is_writer e ≡ ok (r, f)
        → Step e f
    joins :
        (name : Text) (k : ℕ)
        → k < max_comm_user_number
        → IsRaw e.comm k
        → Step e (reg_journal os system name e).1
    serves : (idx : ℕ) (f : Engine os system) → serve os system idx e ≡ ok (tt, f) → Step e f
    exits :
        (name : Text) (f : Engine os system)
        → exit_client os system dump name e ≡ ok (tt, f)
        → Step e f
    writes :
        (idx : ℕ) (msg : PageCommMsg)
        → ¬ IsRaw e.comm idx
        → msg.status ≢ raw
        → Step e (record e { comm = set_msg idx msg e.comm })

  pub data Reach (e : Engine os system) : Engine os system → Type 0 where
    here : Reach e e
    next : {f g : Engine os system} → Reach e f → Step f g → Reach e g

  Step-IsSound :
      (e f : Engine os system) → Step e f → IsSound os system dump e → IsSound os system dump f
  Step-IsSound e f (registers name pid is_writer r _ h) =
      registers-IsSound os system dump e f name pid is_writer r h
  Step-IsSound e _ (joins name k small r) = joins-IsSound os system dump e name k small r
  Step-IsSound e f (serves idx _ h) = serves-IsSound os system dump e f idx h
  Step-IsSound e f (exits name _ h) = exits-IsSound os system dump e f name h
  Step-IsSound e _ (writes idx msg held used) = writes-IsSound os system dump e idx msg used held

  -- In every state that the engine reaches, each message on a client's list is in use, and is on no
  -- other client's list: the steps are the registration of clients and of journals, rounds of the comm
  -- thread, exits, and the clients' writes to messages in use. It is stated for runs in which no step
  -- fails and a journal is registered only while a message among the first 1000 is raw.
  pub Reach-IsSound :
      (e f : Engine os system) → IsSound os system dump e → Reach e f → IsSound os system dump f
  Reach-IsSound e _ sound here = sound
  Reach-IsSound e f sound (next {f = g} run step) =
      Step-IsSound g f step (Reach-IsSound e g sound run)
