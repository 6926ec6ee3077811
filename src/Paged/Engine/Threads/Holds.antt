-- ===== src/Paged/Engine/Threads/Holds.antt =====
-- What holds while the threads of paged/PageEngine.cpp work: who has the mutex, and which message waits.
use option_hedge.Base.{ℕ, ◌≡◌, ◌≢◌, refl, ap, arith, false, ◌&&◌, Option, none, some}
use mathlib.Core.Path.{fun_ext}
use option_hedge.Os.{Os}
use option_hedge.Paged.Msg.{PageCommMsg, CommTable, requesting, set_msg}
use option_hedge.Paged.Engine.{SystemWriter, Engine}
use option_hedge.Paged.Engine.Threads.{
  Thread, comm_thread, socket_thread, acquire_mutex, CommPc, testing, entering, serving, noting,
  leaving, SocketPc, accepting, handling, returning, note_last, comm_inside, socket_inside,
}
use option_hedge.Paged.Engine.Threads.Answer.{note_last-set_msg_ne, note_last-status, Waits}

-- A thread in its section holds the mutex, and the message that the comm thread is to serve waits.
unfoldable pub CommHolds : CommPc → Option Thread → CommTable → Type 0
CommHolds (testing i) m t = Unit
CommHolds (entering i) m t = (t i).status ≡ requesting
CommHolds (serving i) m t = (m ≡ some comm_thread) × ((t i).status ≡ requesting)
CommHolds (noting i) m t = m ≡ some comm_thread
CommHolds (leaving i) m t = m ≡ some comm_thread

unfoldable pub SocketHolds : SocketPc → Option Thread → Type 0
SocketHolds accepting m = Unit
SocketHolds handling m = m ≡ some socket_thread
SocketHolds returning m = m ≡ some socket_thread

pub CommHolds-Waits :
    (pc : CommPc) (m : Option Thread) (t t' : CommTable)
    → Waits t t'
    → CommHolds pc m t
    → CommHolds pc m t'
unfolding CommHolds Waits
CommHolds-Waits (testing i) m t t' keeps h = tt
CommHolds-Waits (entering i) m t t' keeps h = keeps i h
CommHolds-Waits (serving i) m t t' keeps (h, asked) = (h, keeps i asked)
CommHolds-Waits (noting i) m t t' keeps h = h
CommHolds-Waits (leaving i) m t t' keeps h = h

pub SocketHolds-outside :
    (pc : SocketPc) (m n : Option Thread)
    → m ≢ some socket_thread
    → SocketHolds pc m
    → SocketHolds pc n
unfolding SocketHolds
SocketHolds-outside accepting m n out h = tt
SocketHolds-outside handling m n out h = absurd (out h)
SocketHolds-outside returning m n out h = absurd (out h)

pub acquire_mutex-some :
    (t : Thread) (m n : Option Thread) → acquire_mutex t m ≡ some n → (m ≡ none) × (n ≡ some t)
unfolding acquire_mutex
acquire_mutex-some t none n h = (refl, cc h)
acquire_mutex-some t (some u) n h = absurd (cc h)

pub Inv-excludes :
    (c : CommPc) (k : SocketPc) (m : Option Thread) (t : CommTable)
    → CommHolds c m t
    → SocketHolds k m
    → (comm_inside c && socket_inside k) ≡ false
unfolding CommHolds SocketHolds
Inv-excludes (testing i) k m t h g = refl
Inv-excludes (entering i) k m t h g = refl
Inv-excludes c accepting m t h g = ground arith
Inv-excludes (serving i) handling m t (h, asked) g = absurd (cc (h, g))
Inv-excludes (serving i) returning m t (h, asked) g = absurd (cc (h, g))
Inv-excludes (noting i) handling m t h g = absurd (cc (h, g))
Inv-excludes (noting i) returning m t h g = absurd (cc (h, g))
Inv-excludes (leaving i) handling m t h g = absurd (cc (h, g))
Inv-excludes (leaving i) returning m t h g = absurd (cc (h, g))

module _ (os : Os) (system : SystemWriter os) where
  -- What the operations have done: between the two stores of an answer, both are counted as done.
  unfoldable pub settled : CommPc → Engine os system → Engine os system
  settled (noting i) e = record e { comm = note_last i e.comm }
  settled (testing i) e = e
  settled (entering i) e = e
  settled (serving i) e = e
  settled (leaving i) e = e

  -- While the socket thread holds the mutex, the comm thread is outside its section.
  pub CommHolds-outside :
      (pc : CommPc) (m n : Option Thread) (t : CommTable)
      → m ≢ some comm_thread
      → CommHolds pc m t
      → ((e : Engine os system) → settled pc e ≡ e) × CommHolds pc n t
  unfolding CommHolds settled
  CommHolds-outside (testing i) m n t out h = (λ e. refl, tt)
  CommHolds-outside (entering i) m n t out h = (λ e. refl, h)
  CommHolds-outside (serving i) m n t out (h, asked) = absurd (out h)
  CommHolds-outside (noting i) m n t out h = absurd (out h)
  CommHolds-outside (leaving i) m n t out h = absurd (out h)

  pub settled-set_msg :
      (pc : CommPc) (idx : ℕ) (msg : PageCommMsg) (e : Engine os system)
      → pc ≢ noting idx
      → (settled pc (record e { comm = set_msg idx msg e.comm })
          ≡ record (settled pc e) { comm = set_msg idx msg (settled pc e).comm })
        × (((settled pc e).comm idx).status ≡ (e.comm idx).status)
  unfolding settled
  settled-set_msg (testing i) idx msg e apart = (refl, refl)
  settled-set_msg (entering i) idx msg e apart = (refl, refl)
  settled-set_msg (serving i) idx msg e apart = (refl, refl)
  settled-set_msg (leaving i) idx msg e apart = (refl, refl)
  settled-set_msg (noting i) idx msg e apart = (
    ap (λ t. record e { comm = t })
        (fun_ext (note_last-set_msg_ne i idx msg e.comm (λ same. apart (ap noting same)))),
    note_last-status i idx e.comm,
  )
