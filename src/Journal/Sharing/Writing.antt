-- ===== src/Journal/Sharing/Writing.antt =====
-- The writer's steps on a shared page keep what holds of it: journal/JournalWriter.cpp.
use option_hedge.Base.{
  ℕ, zero, suc, ◌+◌, ◌^◌, ◌<◌, ◌≡◌, ◌⊎◌, inl, inr, sym, ap, subst, ◌∙◌, arith, some, List, [], ◌∷◌,
  ◌++◌,
}
use option_hedge.Base.Memory.{Mem, set_byte, load}
use option_hedge.Journal.Frame.{status, width, offset, get_field, frame_status_code}
use option_hedge.Journal.Page.{Page, pass_frame, pass_written_frame, locate_writable_frame}
use option_hedge.Journal.Writer.{FrameArgs, fill_frame, publish_frame}
use option_hedge.Journal.Log.{Entry, entry_length, Holds, IsLog, IsLog-Agree}
use option_hedge.Journal.Log.Append.{IsArgs, entry_of, publish_frame-IsLog}
use option_hedge.Journal.Log.Scan.{pass_frame-Holds, IsLog-end, IsLog-last}
use option_hedge.Journal.Stores.{Store, run_stores, frame_stores, body_stores}
use option_hedge.Journal.Stores.Outcome.{run_stores-frame, frame_stores-body}
use option_hedge.Journal.Stores.Behind.{body_stores-AreBehind}
use option_hedge.Journal.Sharing.{idle, storing}
use option_hedge.Journal.Sharing.Invariant.{IsDone, IsStoring, Phase}

-- A raw frame is the one that the writer locates.
pub locate_writable_frame-raw :
    (fuel : ℕ) (p q : Page) (frame : ℕ) (m : Mem)
    → get_field status p.frame m ≡ 0
    → locate_writable_frame fuel p m ≡ some (q, some frame)
    → (q ≡ p) × (frame ≡ p.frame)
unfolding locate_writable_frame pass_written_frame frame_status_code
locate_writable_frame-raw zero p q frame m r e = absurd (cc e)
locate_writable_frame-raw (suc fuel) p q frame m r e = ground (arith, r, e)

call-IsStoring :
    (a : ℕ) (m : Mem) (at : ℕ) (done : List Entry) (args : FrameArgs) (time : ℕ)
    → IsLog m a done at
    → get_field status at m ≡ 0
    → IsArgs args
    → at + 2 ^ 32 < 2 ^ 64
    → time < 2 ^ 64
    → IsStoring a m at done (entry_of args time) (body_stores at args time)
call-IsStoring a m at done args time l r ok fits time_long = record {
  is_log = l;
  is_raw = r;
  behind = body_stores-AreBehind at fits args time ok;
  outcome =
      subst (IsDone a at done (entry_of args time))
        (sym (run_stores-frame at args time m ok fits time_long)
          ∙ ap (λ ws. run_stores ws m) (frame_stores-body at args time))
        published;
}
  where
    published : IsDone a at done (entry_of args time) (publish_frame at time (fill_frame at args m))
    published =
        let m' = publish_frame at time (fill_frame at args m) in
        let (l', r', same, text) = publish_frame-IsLog a at done args time m l ok fits time_long in
        (
          l',
          subst (λ x. Holds m' x (entry_of args time)) (sym (IsLog-end m done a at l))
              (IsLog-last m' done a (at + entry_length (entry_of args time)) (entry_of args time)
                l'),
          r',
        )

-- A store behind the status leaves the log and the raw status.
put-IsStoring :
    (a : ℕ) (m : Mem) (at : ℕ) (done : List Entry) (e : Entry) (w : Store) (vs : List Store)
    → IsStoring a m at done e (w ∷ vs)
    → IsStoring a (set_byte w.0 w.1 m) at done e vs
unfolding run_stores set_byte get_field width offset load
put-IsStoring a m at done e w vs h =
    let below = h.behind.each.0 in
    record {
      is_log = IsLog-Agree m (set_byte w.0 w.1 m) done a at (λ x lo hi. ground arith) h.is_log;
      is_raw = ground (arith, h.is_raw);
      behind = record { each = h.behind.each.1 };
      outcome = h.outcome;
    }

pub Phase-call :
    (a : ℕ) (m : Mem) (at : ℕ) (calls done : List Entry) (args : FrameArgs) (time : ℕ)
    → Phase a m at calls done idle
    → IsArgs args
    → at + 2 ^ 32 < 2 ^ 64
    → time < 2 ^ 64
    → Phase a m at
        (calls ++ entry_of args time ∷ [])
        done
        (storing args time (frame_stores at args time))
unfolding Phase
Phase-call a m at calls done args time (l, r, c) ok fits time_long = inl (
  body_stores at args time,
  frame_stores-body at args time,
  ap (λ es. es ++ entry_of args time ∷ []) c,
  call-IsStoring a m at done args time l r ok fits time_long,
)

-- The last store adds the frame to the log, and the others change nothing that is marked.
pub Phase-put :
    (a : ℕ) (m : Mem) (at : ℕ) (calls done : List Entry) (args : FrameArgs) (time : ℕ) (w : Store)
    (ws : List Store)
    → Phase a m at calls done (storing args time (w ∷ ws))
    → let m' = set_byte w.0 w.1 m in
      Phase a m' at calls done (storing args time ws)
      ⊎ Phase a m' at calls (done ++ entry_of args time ∷ []) (storing args time ws)
unfolding Phase run_stores
Phase-put a m at calls done args time w ws (inl ([], e, c, h)) =
    let last : w ≡ (at, 1) = cc e in
    let (l, holds, r) =
      subst (λ v. IsDone a at done (entry_of args time) (set_byte v.0 v.1 m)) (sym last)
        h.outcome in
    inr (inr (cc e, c, l, holds, r))
Phase-put a m at calls done args time w ws (inl (v ∷ vs, e, c, h)) =
    let first : v ≡ w = cc e in
    inl (
      inl (
        vs,
        cc e,
        c,
        subst (λ u. IsStoring a (set_byte u.0 u.1 m) at done (entry_of args time) vs) first
            (put-IsStoring a m at done (entry_of args time) v vs h),
      ))
Phase-put a m at calls done args time w ws (inr (e, c, l, h, r)) = absurd (cc e)

pub Phase-return :
    (a : ℕ) (m : Mem) (p : Page) (calls done : List Entry) (args : FrameArgs) (time : ℕ)
    → Phase a m p.frame calls done (storing args time [])
    → Phase a m (pass_frame p m).frame calls done idle
unfolding Phase
Phase-return a m p calls done args time (inl ([], e, c, h)) = absurd (cc e)
Phase-return a m p calls done args time (inl (v ∷ vs, e, c, h)) = absurd (cc e)
Phase-return a m p calls done args time (inr (e, c, l, h, r)) =
    rw (pass_frame-Holds p m (entry_of args time) h) (l, r, c)
