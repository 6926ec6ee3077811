-- ===== src/Os.antt =====
-- What memoryManage asks of the system it runs on: the calls of libc and the kernel, taken as a
-- parameter, and the state and failure monad in which the code that makes them is written.
use option_hedge.Base.{◌≡◌, ◌⊎◌, inl, inr, refl, ℕ, Bool, true, false, Option, none, some, List}
use option_hedge.Base.Text.{Text}
use option_hedge.Base.Memory.{Mem}

-- How a call may end without a result: an exception that the code throws, `exit (EXIT_FAILURE)`, or
-- a step whose effect C++ leaves undefined.
pub data Failure : Type 0 where
  page_version_mismatch : ℕ → Failure
  more_than_one_writer cannot_register_client cannot_register_journal : Failure
  server_buffer_not_allocated unaccepted_interval : Failure
  exit_failure filesystem_error : Failure
  null_pointer field_overflow foreign_iterator missing_return out_of_range indeterminate : Failure
  -- The fuel of the model's loop was used up; the theorems on loops say how much is enough.
  out_of_fuel : Failure

pub data Result {ℓ} (A : Type ℓ) : Type ℓ where
  ok : A → Result A
  err : Failure → Result A

pub Result-cases {ℓ} :
    {A : Type ℓ} (r : Result A) → ((x : Failure) × (r ≡ err x)) ⊎ ((a : A) × (r ≡ ok a))
Result-cases (ok a) = inr (a, refl)
Result-cases (err x) = inl (x, refl)

-- The calls. `none` and `false` are the error returns (-1, MAP_FAILED).
pub record Os : Type 1 where
  pub World : Type 0
  -- open (path, O_RDWR | O_CREAT, 0600), or O_RDONLY where the flag is `false`
  pub open_file : Text → Bool → World → Option ℕ × World
  pub close_file : ℕ → World → World
  -- lseek (fd, offset, SEEK_SET)
  pub seek : ℕ → ℕ → World → Bool × World
  -- write (fd, "", 1)
  pub write_zero : ℕ → World → Bool × World
  -- mmap (0, size, prot, MAP_SHARED, fd, 0), `true` for PROT_READ | PROT_WRITE
  pub map_file : ℕ → Bool → ℕ → World → Mem → Option ℕ × World × Mem
  pub unmap : ℕ → ℕ → World → Bool × World
  -- madvise (buffer, size, MADV_RANDOM)
  pub advise_random : ℕ → ℕ → World → Bool × World
  pub lock_memory : ℕ → ℕ → World → Bool × World
  pub unlock_memory : ℕ → ℕ → World → Bool × World
  pub rename : Text → Text → World → Bool × World
  pub remove : Text → World → World
  -- the file names in a directory; `none` where directory_iterator throws
  pub list_directory : Text → World → Option (List Text)
  -- fopen, fread and fclose of a file's first bytes; `none` where they fail
  pub read_prefix : Text → ℕ → World → Option (List ℕ)
  -- CLOCK_MONOTONIC in nanoseconds, and the seconds of std::time
  pub monotonic : World → ℕ × World
  pub unix_time : World → ℕ × World

-- A process: the world it calls, its memory, and `secDiff` of the timer singleton once that is made.
pub record Sys (os : Os) : Type 0 where
  pub world : os.World
  pub mem : Mem
  pub timer : Option ℕ

-- A call that may change a state of type `S` and may fail.
abbrev pub M : Type 0 → Type 0 → Type 0
M S A = S → Result (A × S)

infixl 5 ◌>>=◌ ◌>>◌
abbrev pub ◌>>=◌ : {S A B : Type 0} → M S A → (A → M S B) → M S B
◌>>=◌ m f s = elim (m s) [ ok (a, s') ↦ f a s' | err e ↦ err e ]

abbrev pub ◌>>◌ : {S B : Type 0} → M S (Unit {0}) → M S B → M S B
m >> k = m >>= λ _. k

abbrev pub pure : {S A : Type 0} → A → M S A
pure a s = ok (a, s)

abbrev pub fail : {S A : Type 0} → Failure → M S A
fail e s = err e

abbrev pub get : {S : Type 0} → M S S
get s = ok (s, s)

abbrev pub when : {S : Type 0} → Bool → M S (Unit {0}) → M S (Unit {0})
when b m s = elim b [ true ↦ m s | false ↦ ok (tt, s) ]

-- A loop's result, where `none` means that its fuel ran out.
abbrev pub with_fuel : {S A : Type 0} → Option A → M S A
with_fuel none s = err out_of_fuel
with_fuel (some a) s = ok (a, s)

abbrev pub modify : {S : Type 0} → (S → S) → M S (Unit {0})
modify f s = ok (tt, f s)

-- A library call, as a step of the process.
module _ (os : Os) where
  abbrev pub call : {A : Type 0} → (os.World → A × os.World) → M (Sys os) A
  call f s = let (a, w) = f s.world in ok (a, record s { world = w })

  abbrev pub on_memory : (Mem → Mem) → M (Sys os) (Unit {0})
  on_memory f s = ok (tt, record s { mem = f s.mem })
