-- ===== src/Paged/Msg/Order.antt =====
-- The order of PageCommMsg is fit for the keys of a std::map.
use option_hedge.Base.{◌^◌, ◌<◌, ◌≡◌, ◌↔◌, arith, true, false}
use option_hedge.Base.Text.{strcmp-eq_iff, strcmp_swap, strcmp-lt_trans}
use option_hedge.Paged.Msg.{PageCommMsg, comm_lt, comm_eq, key_of}

-- The page number is a short.
abbrev pub IsMsg : PageCommMsg → Type 0
IsMsg m = m.page_num < 2 ^ 16

-- Two messages are tied, neither being less than the other, exactly when `==` holds of them, which is
-- when they name the same page of the same journal in the same folder.
pub comm_lt-tie :
    (a b : PageCommMsg)
    → IsMsg a
    → IsMsg b
    → (((comm_lt a b ≡ false) × (comm_lt b a ≡ false)) ↔ (comm_eq a b ≡ true))
      × ((comm_eq a b ≡ true) ↔ (key_of a ≡ key_of b))
unfolding comm_lt comm_eq
comm_lt-tie a b ha hb =
    let folders = strcmp_swap a.folder b.folder in
    let names = strcmp_swap a.name b.name in
    let same_folder = strcmp-eq_iff a.folder b.folder in
    let same_name = strcmp-eq_iff a.name b.name in
    (
      (λ h. ground (arith, folders, names), λ h. ground (arith, folders, names)),
      (λ h. ground (arith, same_folder, same_name), λ h. ground (arith, same_folder, same_name)),
    )

-- The order is transitive.
pub comm_lt_trans :
    (a b c : PageCommMsg) → comm_lt a b ≡ true → comm_lt b c ≡ true → comm_lt a c ≡ true
unfolding comm_lt
comm_lt_trans a b c h k = ground (
  arith,
  strcmp-lt_trans a.folder b.folder c.folder,
  strcmp-lt_trans a.name b.name c.name,
  strcmp-eq_iff a.folder b.folder,
  strcmp-eq_iff b.folder c.folder,
  strcmp-eq_iff a.folder c.folder,
  strcmp-eq_iff a.name b.name,
  strcmp-eq_iff b.name c.name,
  strcmp-eq_iff a.name c.name,
)
