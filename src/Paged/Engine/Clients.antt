-- ===== src/Paged/Engine/Clients.antt =====
-- `reg_client` and `exit_client` of paged/PageEngine.cpp: the clients, their processes and the indices
-- that they hold.
use option_hedge.Base.{
  ℕ, ◌≡◌, ◌≢◌, refl, ap, subst, arith, Bool, none, some, List, [], ◌∷◌, ◌++◌, Option-cases, inl,
  inr, ◌∙◌, All, Option,
}
use option_hedge.Base.Text.{Text, text_eq_iff, text_eq_refl}
use option_hedge.Base.Word.{minus_one_int}
use option_hedge.Base.Map.{Map, insert, text_key, nat_eq}
use option_hedge.Os.{Os, ok}
use option_hedge.Timer.Clock.{get_nano_time_total}
use option_hedge.Paged.Msg.{comm_size}
use option_hedge.Paged.Engine.{
  PageClientInfo, empty_client, SystemWriter, Engine, add_to_pid, register, reg_client,
}
use option_hedge.Paged.Engine.Requests.{
  without, leave_pid, forget_client, exit_client, free_indices,
}

-- A name is not among those of a list.
abbrev pub IsAbsent : Text → List Text → Type 0
IsAbsent name = All (λ x. x ≢ name)

without-absent : (name : Text) (xs : List Text) → IsAbsent name xs → without name xs ≡ xs
unfolding without
without-absent name [] h = refl
without-absent name (x ∷ xs) h = ground (arith, text_eq_iff x name, without-absent name xs h.1)

without-append :
    (name : Text) (xs : List Text) → IsAbsent name xs → without name (xs ++ name ∷ []) ≡ xs
unfolding without
without-append name [] h = ground (arith, text_eq_iff name name)
without-append name (x ∷ xs) h = ground (arith, text_eq_iff x name, without-append name xs h.1)

abbrev pub names_of : ℕ → Map ℕ (List Text) → List Text
names_of pid m = elim (m pid) [ none ↦ [] | some names ↦ names ]

-- No process has an empty list of clients.
abbrev pub IsTidy : Map ℕ (List Text) → Type 0
IsTidy m = (pid : ℕ) → m pid ≢ some []

leave-add :
    (pid : ℕ) (name : Text) (m : Map ℕ (List Text))
    → IsAbsent name (names_of pid m)
    → IsTidy m
    → (p : ℕ) → leave_pid pid name (add_to_pid pid name m) p ≡ m p
unfolding leave_pid
leave-add pid name m absent tidy p = elim (Option-cases (m pid)) [
  | inl e ↦ ground (arith, e, without-append name [] tt)
  | inr ([], e) ↦ absurd (tidy pid e)
  | inr (x ∷ xs, e) ↦
      let absent' : IsAbsent name (x ∷ xs) =
        subst (λ o. IsAbsent name (elim o [ none ↦ [] | some names ↦ names ])) e absent in
      ground (arith, e, without-append name (x ∷ xs) absent')
]

module _ (os : Os) (system : SystemWriter os) where
  -- What a successful registration leaves: an entry for the client and its name at its process.
  pub record IsRegistered (name : Text) (pid : ℕ) (is_writer : Bool) (e f : Engine os system)
      : Type 0 where
    pub client :
        (nano : ℕ) × (f.client_journals
          ≡ insert name
              (record empty_client {
                reg_nano = nano;
                is_writing = is_writer;
                rid_start = minus_one_int;
                rid_end = minus_one_int;
                pid = pid;
              })
              e.client_journals)
    pub process : f.pid_client ≡ add_to_pid pid name e.pid_client
    pub same_comm : f.comm ≡ e.comm
    pub same_writers : f.file_writer_counts ≡ e.file_writer_counts
    pub same_readers : f.file_reader_counts ≡ e.file_reader_counts

  -- A name that is not registered can always be: the answer is the table's file and size, and the
  -- client has no index yet, is no strategy, and is listed last at its process.
  pub reg_client-new :
      (name : Text) (pid : ℕ) (is_writer : Bool) (e : Engine os system)
      → e.client_journals name ≡ none
      → (f : Engine os system) × (reg_client os system name pid is_writer e
          ≡ ok (some (e.comm_file, comm_size), f))
        × IsRegistered name pid is_writer e f
  unfolding reg_client register
  reg_client-new name pid is_writer e fresh =
      let (nano, s, clock, same, fits) = get_nano_time_total os e.sys in
      (
        record e {
          sys = s;
          pid_client = add_to_pid pid name e.pid_client;
          client_journals =
              insert name
                (record empty_client {
                  reg_nano = nano;
                  is_writing = is_writer;
                  rid_start = minus_one_int;
                  rid_end = minus_one_int;
                  pid = pid;
                })
                e.client_journals;
        },
        ground (arith, clock),
        record {
          client = (nano, refl);
          process = refl;
          same_comm = refl;
          same_writers = refl;
          same_readers = refl;
        },
      )

  -- A name that is registered is refused, and nothing changes.
  pub reg_client-known :
      (name : Text) (pid : ℕ) (is_writer : Bool) (e : Engine os system) (info : PageClientInfo)
      → e.client_journals name ≡ some info
      → reg_client os system name pid is_writer e ≡ ok (none, e)
  unfolding reg_client
  reg_client-known name pid is_writer e info known = ground arith

  -- The table is left, whether the client is known or not.
  pub reg_client-comm :
      (name : Text) (pid : ℕ) (is_writer : Bool) (r : Option (Text × ℕ)) (e f : Engine os system)
      → reg_client os system name pid is_writer e ≡ ok (r, f)
      → f.comm ≡ e.comm
  reg_client-comm name pid is_writer r e f h = elim (Option-cases (e.client_journals name)) [
    | inr (info, known) ↦
        let same : f ≡ e = ground (arith, h, reg_client-known name pid is_writer e info known) in
        ap (λ g. g.comm) same
    | inl free ↦
        let (g, done, now) = reg_client-new name pid is_writer e free in
        let same : f ≡ g = ground (arith, h, done) in ap (λ g. g.comm) same ∙ now.same_comm
  ]

  module _ (dump : Text → Text → ℕ → ℕ → ℕ → Text) where
    -- A client that registers and exits again leaves the clients, the processes, the table and the
    -- counts as they were, and its exit does not fail. Its name must have been free, and not listed
    -- at its process; and no process may have an empty list.
    pub exit_client-reg_client :
        (name : Text) (pid : ℕ) (is_writer : Bool) (e f : Engine os system)
        → e.client_journals name ≡ none
        → IsAbsent name (names_of pid e.pid_client)
        → IsTidy e.pid_client
        → reg_client os system name pid is_writer e ≡ ok (some (e.comm_file, comm_size), f)
        → (g : Engine os system) × (exit_client os system dump name f ≡ ok (tt, g))
          × ((c : Text) → g.client_journals c ≡ e.client_journals c)
          × ((p : ℕ) → g.pid_client p ≡ e.pid_client p)
          × (g.comm ≡ e.comm)
          × (g.file_writer_counts ≡ e.file_writer_counts)
          × (g.file_reader_counts ≡ e.file_reader_counts)
    unfolding exit_client free_indices forget_client
    exit_client-reg_client name pid is_writer e f fresh absent tidy opened =
        let (f', again, r) = reg_client-new name pid is_writer e fresh in
        let same : f ≡ f' = ground (arith, again) in
        let (nano, clients) = r.client in
        (
          forget_client os system name pid f',
          ground (arith, same, clients, text_eq_refl name),
          λ c.
              ground (arith, ap (λ (m : Map Text PageClientInfo). m c) clients, text_eq_iff c name),
          λ p.
              ap (λ (m : Map ℕ (List Text)). leave_pid pid name m p) r.process
              ∙ leave-add pid name e.pid_client absent tidy p,
          r.same_comm,
          r.same_writers,
          r.same_readers,
        )
