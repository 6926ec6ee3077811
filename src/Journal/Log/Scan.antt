-- ===== src/Journal/Log/Scan.antt =====
-- Passing over the frames of a page: `passWrittenFrame`, `passToTime` and the two locate functions of
-- journal/Page.h.
use option_hedge.Base.{
  ℕ, zero, suc, ◌+◌, ◌^◌, ◌<◌, ◌≡◌, refl, arith, List, [], ◌∷◌, ◌++◌, length, none, some, ap, subst,
  ◌≢◌, ◌-◌, ltb, if◌then◌else◌, Bool-cases, inl, inr,
}
use native.Mathlib.Nat.{add-zero}
use option_hedge.Base.Memory.{Mem}
use option_hedge.Base.Word.{to_int, long_lt}
use option_hedge.Constants.{journal_page_size, page_min_headroom}
use option_hedge.Journal.Frame.{
  status, get_field, get_next_entry, next, address_add, frame_status_code,
}
use option_hedge.Journal.Log.{Entry, entry_length, Holds, IsLog}
use option_hedge.Journal.Page.{
  Page, pass_frame, pass_written_frame, pass_to_time, locate_writable_frame,
}

-- The bytes that a list of entries takes.
abbrev pub log_length : List Entry → ℕ
log_length [] = 0
log_length (e ∷ es) = entry_length e + log_length es

-- The page with its cursor behind the frames of `es`.
abbrev pub moved : Page → List Entry → Page
moved p [] = p
moved p (e ∷ es) =
    moved
      (record p {
        frame = p.frame + entry_length e;
        position = to_int (p.position + entry_length e);
        frame_num = to_int (p.frame_num + 1);
      })
      es

pub pass_frame-Holds :
    (p : Page) (m : Mem) (e : Entry) → Holds m p.frame e → pass_frame p m ≡ moved p (e ∷ [])
unfolding pass_frame next get_next_entry address_add
pass_frame-Holds p m e h = ground (arith, h.has_length, h.length_int, h.address_long)

pub IsLog-end : (m : Mem) (es : List Entry) (a b : ℕ) → IsLog m a es b → b ≡ a + log_length es
IsLog-end m [] a b l = omega arith
IsLog-end m (e ∷ es) a b l = omega (arith, IsLog-end m es (a + entry_length e) b l.1)

pub frame-moved : (es : List Entry) (p : Page) → (moved p es).frame ≡ p.frame + log_length es
frame-moved [] p = omega arith
frame-moved (e ∷ es) p = omega (arith, frame-moved es (moved p (e ∷ [])))

pub IsLog-last :
    (m : Mem) (es : List Entry) (a c : ℕ) (e : Entry)
    → IsLog m a (es ++ e ∷ []) c
    → Holds m (a + log_length es) e
IsLog-last m [] a c e l = rw add-zero l.0
IsLog-last m (d ∷ es) a c e l =
    subst (λ x. Holds m x e) (omega arith) (IsLog-last m es (a + entry_length d) c e l.1)

-- While the ints do not wrap, `position` and `frameNum` count the bytes and the frames passed.
pub position-moved :
    (es : List Entry) (p : Page)
    → p.position + log_length es < 2 ^ 32
    → (moved p es).position ≡ p.position + log_length es
position-moved [] p h = omega arith
position-moved (e ∷ es) p h = omega (arith, position-moved es (moved p (e ∷ [])) (omega arith))

pub frame_num-moved :
    (es : List Entry) (p : Page)
    → p.frame_num + length es < 2 ^ 32
    → (moved p es).frame_num ≡ p.frame_num + length es
frame_num-moved [] p h = omega arith
frame_num-moved (e ∷ es) p h = omega (arith, frame_num-moved es (moved p (e ∷ [])) (omega arith))

pub buffer-moved :
    (es : List Entry) (p : Page)
    → ((moved p es).buffer ≡ p.buffer) × ((moved p es).page_num ≡ p.page_num)
buffer-moved [] p = (refl, refl)
buffer-moved (e ∷ es) p = buffer-moved es (moved p (e ∷ []))

-- The loop passes the frames of a log, and needs one round more than there are frames.
pub pass_written_frame-moved :
    (fuel : ℕ) (p : Page) (m : Mem) (es : List Entry) (b : ℕ)
    → IsLog m p.frame es b
    → get_field status b m ≢ 1
    → length es < fuel
    → pass_written_frame fuel p m ≡ some (moved p es)
unfolding pass_written_frame frame_status_code
pass_written_frame-moved zero p m es b l stop h = absurd (omega arith)
pass_written_frame-moved (suc fuel) p m [] b l stop h =
    ground (arith, ap (λ x. get_field status x m) l)
pass_written_frame-moved (suc fuel) p m (e ∷ es) b l stop h =
    rw (l.0.is_written, pass_frame-Holds p m e l.0)
      (pass_written_frame-moved fuel (moved p (e ∷ [])) m es b l.1 stop (omega arith))

-- On a page whose written frames are a log that ends at `b`, `passWrittenFrame` terminates with its
-- cursor at `b`, having counted every frame and byte on the way, and changes nothing else of the
-- page. One round more than there are frames is fuel enough.
pub pass_written_frame_lem :
    (fuel : ℕ) (p : Page) (m : Mem) (es : List Entry) (b : ℕ)
    → IsLog m p.frame es b
    → get_field status b m ≢ 1
    → length es < fuel
    → p.position + log_length es < 2 ^ 32
    → p.frame_num + length es < 2 ^ 32
    → pass_written_frame fuel p m
      ≡ some (record p {
        frame = b;
        position = p.position + log_length es;
        frame_num = p.frame_num + length es;
      })
pass_written_frame_lem fuel p m es b l stop h hp hn = ground (
  arith,
  pass_written_frame-moved fuel p m es b l stop h,
  frame-moved es p,
  position-moved es p hp,
  frame_num-moved es p hn,
  buffer-moved es p,
  IsLog-end m es p.frame b l,
)

-- The entries in front of the first one that is not older than `time`.
abbrev pub older : ℕ → List Entry → List Entry
older time [] = []
older time (e ∷ es) = if long_lt e.nano_of time then e ∷ older time es else []

-- `passToTime` stops at the first frame that is not older than the time, or behind the last frame.
pub pass_to_time_lem :
    (fuel : ℕ) (time : ℕ) (p : Page) (m : Mem) (es : List Entry) (b : ℕ)
    → IsLog m p.frame es b
    → get_field status b m ≢ 1
    → length es < fuel
    → pass_to_time fuel time p m ≡ some (moved p (older time es))
unfolding pass_to_time frame_status_code
pass_to_time_lem zero time p m es b l stop h = absurd (omega arith)
pass_to_time_lem (suc fuel) time p m [] b l stop h =
    ground (arith, ap (λ x. get_field status x m) l)
pass_to_time_lem (suc fuel) time p m (e ∷ es) b l stop h =
    let rest = pass_to_time_lem fuel time (moved p (e ∷ [])) m es b l.1 stop (omega arith) in
    elim (Bool-cases (long_lt e.nano_of time)) [
      | inl yet ↦ rw (l.0.is_written, l.0.has_nano, yet, pass_frame-Holds p m e l.0) rest
      | inr late ↦ rw (l.0.is_written, l.0.has_nano, late)
    ]

-- `locateWritableFrame` answers the raw frame behind the log if the page has its headroom left below
-- the page's size, and the null pointer otherwise; either way the page stands behind the log.
pub locate_writable_frame_lem :
    (fuel : ℕ) (p : Page) (m : Mem) (es : List Entry) (b : ℕ)
    → IsLog m p.frame es b
    → get_field status b m ≡ 0
    → length es < fuel
    → p.position + log_length es < 2 ^ 31 - page_min_headroom
    → locate_writable_frame fuel p m
      ≡ some (
        moved p es,
        if ltb (p.position + log_length es + page_min_headroom) journal_page_size
            then some b
            else none,
      )
unfolding locate_writable_frame frame_status_code
locate_writable_frame_lem fuel p m es b l is_raw h hp =
    let stop : get_field status b m ≢ 1 = λ e. omega (arith, e, is_raw) in
    let at_b : (moved p es).frame ≡ b =
      omega (arith, frame-moved es p, IsLog-end m es p.frame b l) in
    rw (pass_written_frame-moved fuel p m es b l stop h, locate_writable_frame)
      (rw (at_b, is_raw, position-moved es p (omega arith)) (ground arith))
