-- ===== src/Journal/Sharing/Safety.antt =====
-- What a reader gets of a page while the writer is storing to it: journal/JournalWriter.cpp and
-- journal/Page.h, whatever the order in which the two go on.
use option_hedge.Base.{
  ℕ, ◌+◌, ◌≤◌, ◌≡◌, inl, inr, refl, sym, ap, subst, ◌∙◌, arith, none, List, [], ◌∷◌, ◌++◌, length,
  length-append,
}
use mathlib.Core.List.{append_assoc}
use option_hedge.Base.Memory.{Mem}
use option_hedge.Journal.Frame.{status, get_field}
use option_hedge.Journal.Page.{Page, locate_readable_frame}
use option_hedge.Journal.Log.{Entry, IsLog}
use option_hedge.Journal.Log.Append.{entry_of}
use option_hedge.Journal.Log.Scan.{log_length, frame-moved}
use option_hedge.Journal.Sharing.{
  Shared, Step, call, put, return, look, read, start, Reach, here, later,
}
use option_hedge.Journal.Sharing.Invariant.{
  unfinished, Phase, Inv, Phase-visible, Phase-calls, IsLog-suffix,
}
use option_hedge.Journal.Sharing.Writing.{
  locate_writable_frame-raw, Phase-call, Phase-put, Phase-return,
}
use option_hedge.Journal.Sharing.Reading.{
  IsGiven, IsReading-append, locate_readable_frame-IsGiven, IsGiven-none, IsReading-look,
  IsReading-read,
}

module _ (first : Page) (s : Shared) (inv : Inv first s) where
  reading_at : s.reader.frame ≡ first.frame + log_length s.got
  reading_at = ap (λ p. p.frame) inv.reading.at_got ∙ frame-moved s.got first

  -- What the reader has before it is a log with a raw header behind it.
  unread : (b : ℕ) × IsLog s.mem s.reader.frame inv.reading.rest b × (get_field status b s.mem ≡ 0)
  unread =
      let (b, l, r) =
        Phase-visible first.frame s.mem s.writer.frame s.calls inv.done s.pc inv.phase in
      let l' = subst (λ es. IsLog s.mem first.frame es b) inv.reading.split l in
      (
        b,
        subst (λ x. IsLog s.mem x inv.reading.rest b) (sym reading_at)
            (IsLog-suffix s.mem first.frame b s.got inv.reading.rest l'),
        r,
      )

  given : IsGiven s.reader s.mem inv.reading.rest
  given =
      let (b, l, r) = unread in locate_readable_frame-IsGiven s.reader s.mem inv.reading.rest b l r

-- The invariant holds at the start, and every step keeps it.
Inv-start :
    (m : Mem) (w r : Page) (es : List Entry)
    → IsLog m r.frame es w.frame
    → get_field status w.frame m ≡ 0
    → Inv r (start m w r es)
unfolding Phase
Inv-start m w r es l is_raw = record {
  done = es;
  phase = (l, is_raw, refl);
  reading = record { rest = es; split = refl; at_got = refl; ahead = inl refl };
}

Step-Inv : (first : Page) (s t : Shared) → Step s t → Inv first s → Inv first t
Step-Inv first s t (call fuel q frame a time at_rest found ok fits time_long) inv =
    let phase = subst (Phase first.frame s.mem s.writer.frame s.calls inv.done) at_rest inv.phase in
    let (same, at) =
      locate_writable_frame-raw fuel s.writer q frame s.mem (unfold Phase in phase.1) found in
    record {
      done = inv.done;
      phase =
          rw (same, at)
            (Phase-call first.frame s.mem s.writer.frame s.calls inv.done a time phase ok
              (rw at at fits) time_long);
      reading = inv.reading;
    }
Step-Inv first s t (put a time w ws open_call) inv =
    let phase =
      subst (Phase first.frame s.mem s.writer.frame s.calls inv.done) open_call inv.phase in
    elim (Phase-put first.frame s.mem s.writer.frame s.calls inv.done a time w ws phase) [
      | inl h ↦ record { done = inv.done; phase = h; reading = inv.reading }
      | inr h ↦ record {
        done = inv.done ++ entry_of a time ∷ [];
        phase = h;
        reading =
            IsReading-append first inv.done (entry_of a time) s.reader s.seen s.got inv.reading;
      }
    ]
Step-Inv first s t (return a time open_call) inv =
    let phase =
      subst (Phase first.frame s.mem s.writer.frame s.calls inv.done) open_call inv.phase in
    record {
      done = inv.done;
      phase = Phase-return first.frame s.mem s.writer s.calls inv.done a time phase;
      reading = inv.reading;
    }
Step-Inv first s t (look unseen) inv = record {
  done = inv.done;
  phase = inv.phase;
  reading =
      IsReading-look first s.mem inv.done s.reader s.got inv.reading.rest inv.reading.split
        inv.reading.at_got (given first s inv);
}
Step-Inv first s t (read frame seen) inv = elim inv.reading.ahead [
  | inl unseen ↦ absurd (cc (seen, unseen))
  | inr (at, more) ↦ record {
    done = inv.done;
    phase = inv.phase;
    reading =
        IsReading-read first s.mem inv.done s.reader s.got frame inv.reading.rest inv.reading.split
          inv.reading.at_got more (cc (seen, at)) (given first s inv);
  }
]

Reach-Inv : (first : Page) (s t : Shared) → Inv first s → Reach s t → Inv first t
Reach-Inv first s t inv here = inv
Reach-Inv first s t inv (later {t = u} r st) = Step-Inv first u t st (Reach-Inv first s u inv r)

-- A reader that goes over a page while the writer stores to it, byte by byte and in the program's
-- order, gets the frames that the writer was called to write: complete, in their order, none twice and
-- none left out. A frame of which a store is left is not among them.
pub reads_in_order :
    (m : Mem) (w r : Page) (es : List Entry) (s : Shared)
    → IsLog m r.frame es w.frame
    → get_field status w.frame m ≡ 0
    → Reach (start m w r es) s
    → (rest : List Entry) × (s.calls ≡ s.got ++ rest) × (unfinished s.pc ≤ length rest)
reads_in_order m w r es s l is_raw reach =
    let inv = Reach-Inv r (start m w r es) s (Inv-start m w r es l is_raw) reach in
    let (tail, called, open_calls) =
      Phase-calls r.frame s.mem s.writer.frame s.calls inv.done s.pc inv.phase in
    (
      inv.reading.rest ++ tail,
      called ∙ ap (λ es. es ++ tail) inv.reading.split ∙ append_assoc s.got inv.reading.rest tail,
      omega (arith, length-append inv.reading.rest tail, open_calls),
    )

-- When `locateFrame` answers the null pointer to such a reader, it has got every frame but the one of
-- which a store is left, if there is one.
pub reads_all :
    (m : Mem) (w r : Page) (es : List Entry) (s : Shared)
    → IsLog m r.frame es w.frame
    → get_field status w.frame m ≡ 0
    → Reach (start m w r es) s
    → locate_readable_frame s.reader s.mem ≡ none
    → length s.calls ≡ length s.got + unfinished s.pc
reads_all m w r es s l is_raw reach end =
    let inv = Reach-Inv r (start m w r es) s (Inv-start m w r es l is_raw) reach in
    let (tail, called, open_calls) =
      Phase-calls r.frame s.mem s.writer.frame s.calls inv.done s.pc inv.phase in
    let none_left = IsGiven-none s.reader s.mem inv.reading.rest (given r s inv) end in
    omega (
      arith,
      ap length called,
      length-append inv.done tail,
      ap length inv.reading.split,
      length-append s.got inv.reading.rest,
      ap length none_left,
      open_calls,
    )
