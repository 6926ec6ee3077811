-- ===== src/Journal/Sharing/Reading.antt =====
-- The reader's steps on a shared page: `locateFrame`, the getters and `passFrame` of journal/Page.h.
use option_hedge.Base.{
  ℕ, ◌≡◌, ◌≢◌, inl, inr, refl, sym, ap, ◌∙◌, arith, Option, none, some, List, [], ◌∷◌, ◌++◌, length,
  length-append,
}
use mathlib.Core.List.{append_assoc}
use option_hedge.Base.Memory.{Mem}
use option_hedge.Journal.Frame.{status, get_field, frame_status_code}
use option_hedge.Journal.Page.{Page, pass_frame, locate_readable_frame}
use option_hedge.Journal.Log.{Entry, Holds, IsLog}
use option_hedge.Journal.Log.Scan.{moved, pass_frame-Holds}
use option_hedge.Journal.Cursor.Read.{read_entry, read_entry-Holds}
use option_hedge.Journal.Sharing.Invariant.{IsReading, moved-append}

-- The reader keeps its place when a frame is added.
pub IsReading-append :
    (first : Page) (done : List Entry) (e : Entry) (reader : Page) (seen : Option ℕ)
    (got : List Entry)
    → IsReading first done reader seen got
    → IsReading first (done ++ e ∷ []) reader seen got
IsReading-append first done e reader seen got h = record {
  rest = h.rest ++ e ∷ [];
  split = ap (λ l. l ++ e ∷ []) h.split ∙ append_assoc got h.rest (e ∷ []);
  at_got = h.at_got;
  ahead = elim h.ahead [
    | inl n ↦ inl n
    | inr (at, some_left) ↦ inr (at, λ n. omega (arith, ap length n, length-append h.rest (e ∷ [])))
  ];
}

-- The reader is given its next frame if there is one, and else the null pointer.
abbrev pub IsGiven : Page → Mem → List Entry → Type 0
IsGiven p m [] = locate_readable_frame p m ≡ none
IsGiven p m (e ∷ es) = Holds m p.frame e × (locate_readable_frame p m ≡ some p.frame)

pub locate_readable_frame-IsGiven :
    (p : Page) (m : Mem) (es : List Entry) (b : ℕ)
    → IsLog m p.frame es b
    → get_field status b m ≡ 0
    → IsGiven p m es
unfolding locate_readable_frame frame_status_code
locate_readable_frame-IsGiven p m [] b l r = ground (arith, ap (λ x. get_field status x m) l, r)
locate_readable_frame-IsGiven p m (e ∷ es) b l r = (l.0, ground (arith, l.0.is_written))

pub IsGiven-none :
    (p : Page) (m : Mem) (es : List Entry)
    → IsGiven p m es
    → locate_readable_frame p m ≡ none
    → es ≡ []
IsGiven-none p m [] g e = refl
IsGiven-none p m (x ∷ es) g e = absurd (cc (e, g.1))

module _ (first : Page) (m : Mem) (done : List Entry) (reader : Page) (got : List Entry) where
  pub IsReading-look :
      (rest : List Entry)
      → done ≡ got ++ rest
      → reader ≡ moved first got
      → IsGiven reader m rest
      → IsReading first done reader (locate_readable_frame reader m) got
  IsReading-look [] split at_got given = record {
    rest = [];
    split = split;
    at_got = at_got;
    ahead = inl given;
  }
  IsReading-look (e ∷ es) split at_got given = record {
    rest = e ∷ es;
    split = split;
    at_got = at_got;
    ahead = inr (given.1, λ n. absurd (cc n));
  }

  pub IsReading-read :
      (frame : ℕ) (rest : List Entry)
      → done ≡ got ++ rest
      → reader ≡ moved first got
      → rest ≢ []
      → frame ≡ reader.frame
      → IsGiven reader m rest
      → IsReading first done (pass_frame reader m) none (got ++ read_entry frame m ∷ [])
  IsReading-read frame [] split at_got more at given = absurd (more refl)
  IsReading-read frame (e ∷ es) split at_got more at given =
      let is_e : read_entry frame m ≡ e = rw at (read_entry-Holds reader.frame m e given.0) in
      record {
        rest = es;
        split = rw is_e (split ∙ sym (append_assoc got (e ∷ []) es));
        at_got = rw is_e (
            pass_frame-Holds reader m e given.0
            ∙ ap (λ p. moved p (e ∷ [])) at_got
            ∙ sym (moved-append first got (e ∷ [])));
        ahead = inl refl;
      }
