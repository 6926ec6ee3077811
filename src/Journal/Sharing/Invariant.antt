-- ===== src/Journal/Sharing/Invariant.antt =====
-- What holds of a shared page between any two stores of journal/JournalWriter.cpp: the frames that are
-- marked are a log, and the reader is behind those that it got.
use option_hedge.Base.{
  ℕ, ◌+◌, ◌≡◌, ◌≢◌, ◌⊎◌, inl, inr, refl, sym, subst, ◌∙◌, arith, Option, none, some, List, [], ◌∷◌,
  ◌++◌, length,
}
use mathlib.Core.List.{append-nil}
use option_hedge.Base.Memory.{Mem}
use option_hedge.Journal.Frame.{status, get_field}
use option_hedge.Journal.Page.{Page}
use option_hedge.Journal.Log.{Entry, entry_length, Holds, IsLog}
use option_hedge.Journal.Log.Append.{entry_of}
use option_hedge.Journal.Log.Scan.{log_length, moved}
use option_hedge.Journal.Stores.{Store, run_stores}
use option_hedge.Journal.Stores.Behind.{AreBehind}
use option_hedge.Journal.Sharing.{Pc, idle, storing, Shared}

-- The number of calls of which a store is left.
abbrev pub unfinished : Pc → ℕ
unfinished idle = 0
unfinished (storing a time []) = 0
unfinished (storing a time (w ∷ ws)) = 1

-- The log with `e` behind it, and a raw header behind that.
abbrev pub IsDone : ℕ → ℕ → List Entry → Entry → Mem → Type 0
IsDone a at done e m =
    IsLog m a (done ++ e ∷ []) (at + entry_length e)
    × Holds m at e
    × (get_field status (at + entry_length e) m ≡ 0)

-- The frame at `at` is not yet marked, and `vs` and the mark are left to store.
pub record IsStoring (a : ℕ) (m : Mem) (at : ℕ) (done : List Entry) (e : Entry) (vs : List Store)
    : Type 0 where
  pub is_log : IsLog m a done at
  pub is_raw : get_field status at m ≡ 0
  pub behind : AreBehind at vs
  pub outcome : IsDone a at done e (run_stores (vs ++ (at, 1) ∷ []) m)

-- The frames that are marked are `done`, and where the writer is.
unfoldable pub Phase : ℕ → Mem → ℕ → List Entry → List Entry → Pc → Type 0
Phase a m at calls done idle = IsLog m a done at × (get_field status at m ≡ 0) × (calls ≡ done)
Phase a m at calls done (storing args time ws) =
    ((vs : List Store) × (ws ≡ vs ++ (at, 1) ∷ [])
      × (calls ≡ done ++ entry_of args time ∷ [])
      × IsStoring a m at done (entry_of args time) vs)
    ⊎ ((ws ≡ [])
        × (calls ≡ done)
        × IsLog m a done (at + entry_length (entry_of args time))
        × Holds m at (entry_of args time)
        × (get_field status (at + entry_length (entry_of args time)) m ≡ 0))

-- The reader is behind what it has got, and a frame that it was given is marked.
pub record IsReading (first : Page) (done : List Entry) (reader : Page) (seen : Option ℕ)
    (got : List Entry) : Type 0 where
  pub rest : List Entry
  pub split : done ≡ got ++ rest
  pub at_got : reader ≡ moved first got
  pub ahead : (seen ≡ none) ⊎ ((seen ≡ some reader.frame) × (rest ≢ []))

pub record Inv (first : Page) (s : Shared) : Type 0 where
  pub done : List Entry
  pub phase : Phase first.frame s.mem s.writer.frame s.calls done s.pc
  pub reading : IsReading first done s.reader s.seen s.got

-- In every phase the frames that are marked are a log with a raw header behind it.
pub Phase-visible :
    (a : ℕ) (m : Mem) (at : ℕ) (calls done : List Entry) (pc : Pc)
    → Phase a m at calls done pc
    → (b : ℕ) × IsLog m a done b × (get_field status b m ≡ 0)
unfolding Phase
Phase-visible a m at calls done idle (l, r, e) = (at, l, r)
Phase-visible a m at calls done (storing args time ws) (inl (vs, e, c, h)) =
    (at, h.is_log, h.is_raw)
Phase-visible a m at calls done (storing args time ws) (inr (e, c, l, h, r)) = (_, l, r)

-- What was called for is what is marked and the call of which a store is left.
pub Phase-calls :
    (a : ℕ) (m : Mem) (at : ℕ) (calls done : List Entry) (pc : Pc)
    → Phase a m at calls done pc
    → (tail : List Entry) × (calls ≡ done ++ tail) × (length tail ≡ unfinished pc)
unfolding Phase
Phase-calls a m at calls done idle (l, r, e) = ([], e ∙ sym (append-nil done), refl)
Phase-calls a m at calls done (storing args time []) (inl (v ∷ vs, e, c, h)) = absurd (cc e)
Phase-calls a m at calls done (storing args time []) (inl ([], e, c, h)) = absurd (cc e)
Phase-calls a m at calls done (storing args time (w ∷ ws)) (inl (vs, e, c, h)) =
    (entry_of args time ∷ [], c, refl)
Phase-calls a m at calls done (storing args time []) (inr (e, c, l, h, r)) =
    ([], c ∙ sym (append-nil done), refl)
Phase-calls a m at calls done (storing args time (w ∷ ws)) (inr (e, c, l, h, r)) = absurd (cc e)

pub IsLog-suffix :
    (m : Mem) (a b : ℕ) (got rest : List Entry)
    → IsLog m a (got ++ rest) b
    → IsLog m (a + log_length got) rest b
IsLog-suffix m a b [] rest l = subst (λ x. IsLog m x rest b) (omega arith) l
IsLog-suffix m a b (e ∷ got) rest l =
    subst (λ x. IsLog m x rest b) (omega arith) (IsLog-suffix m (a + entry_length e) b got rest l.1)

pub moved-append : (p : Page) (es fs : List Entry) → moved p (es ++ fs) ≡ moved (moved p es) fs
moved-append p [] fs = refl
moved-append p (e ∷ es) fs = moved-append (moved p (e ∷ [])) es fs
