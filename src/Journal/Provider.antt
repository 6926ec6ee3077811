-- ===== src/Journal/Provider.antt =====
-- journal/IPageProvider.h, journal/PageProvider.h and the local provider of journal/PageProvider.cpp.
use option_hedge.Base.{ℕ, Bool, false, Option, ◌||◌}
use option_hedge.Base.Text.{Text}
use option_hedge.Base.Word.{minus_one_int}
use option_hedge.Os.{Os, Sys, M, pure}
use option_hedge.Journal.PageUtil.{release_page_buffer}
use option_hedge.Journal.Page.{Page, load_page}

-- IPageProvider with what PageProvider adds: the virtual functions that journals and their handler
-- call. `is_writer` is the field behind `isWriter ()`.
pub record PageProvider (os : Os) : Type 0 where
  pub is_writer : Bool
  pub revise_allowed : Bool
  -- directory, short name, service index and page number
  pub get_page : Text → Text → ℕ → ℕ → M (Sys os) (Option Page)
  -- buffer, size and service index
  pub release_page : ℕ → ℕ → ℕ → M (Sys os) (Unit {0})
  pub register_journal : Text → Text → M (Sys os) ℕ
  pub exit_client : M (Sys os) (Unit {0})

module _ (os : Os) where
  -- PageProvider's own bodies of the two functions that it does not leave abstract.
  unfoldable pub default_register_journal : Text → Text → M (Sys os) ℕ
  default_register_journal dir jname = pure minus_one_int

  unfoldable pub default_exit_client : M (Sys os) (Unit {0})
  default_exit_client = pure tt

  unfoldable pub local_get_page : Bool → Text → Text → ℕ → ℕ → M (Sys os) (Option Page)
  local_get_page is_writer dir jname service_idx page_num =
      load_page os dir jname page_num is_writer false

  unfoldable pub local_release_page : ℕ → ℕ → ℕ → M (Sys os) (Unit {0})
  local_release_page buffer size service_idx = release_page_buffer os buffer size false

  unfoldable pub local_page_provider : Bool → Bool → PageProvider os
  unfolding local_get_page local_release_page default_register_journal default_exit_client
  local_page_provider is_writing revise_allowed = record {
    is_writer = is_writing;
    revise_allowed = is_writing || revise_allowed;
    get_page = local_get_page is_writing;
    release_page = local_release_page;
    register_journal = default_register_journal;
    exit_client = default_exit_client;
  }
