-- ===== src/Paged/Msg.antt =====
-- paged/PageCommStruct.h: the messages of the table that the engine shares with its clients.
pub mod Order
use option_hedge.Base.{
  ℕ, ◌+◌, ◌*◌, ◌≡◌, ◌↔◌, arith, [], Bool, true, false, ◌&&◌, Ordering, if◌then◌else◌, ◌==◌,
}
use option_hedge.Base.Text.{Text, strcmp, text_eq, text_eq_iff}
use option_hedge.Base.Map.{Eq}
use option_hedge.Base.Word.{short_lt}
use option_hedge.Constants.{journal_folder_max_length, journal_short_name_max_length}

-- PAGED_COMM_*: the states of a message, then the failures of a request.
pub data CommStatus : Type 0 where
  raw occupied holding requesting allocated : CommStatus
  non_exist mem_overflow more_than_one_write cannot_rename_from_temp : CommStatus

unfoldable pub comm_status_code : CommStatus → ℕ
comm_status_code raw = 0
comm_status_code occupied = 1
comm_status_code holding = 2
comm_status_code requesting = 3
comm_status_code allocated = 4
comm_status_code non_exist = 11
comm_status_code mem_overflow = 12
comm_status_code more_than_one_write = 13
comm_status_code cannot_rename_from_temp = 14

abbrev pub is_status : CommStatus → CommStatus → Bool
is_status s t = comm_status_code s == comm_status_code t

-- The page numbers are patterns of shorts.
pub record PageCommMsg : Type 0 where
  pub status : CommStatus
  pub folder : Text
  pub name : Text
  pub is_writer : Bool
  pub page_num : ℕ
  pub last_page_num : ℕ

abbrev is_eq : Ordering → Bool
is_eq Ordering.eq = true
is_eq _ = false

abbrev is_lt : Ordering → Bool
is_lt Ordering.lt = true
is_lt _ = false

-- operator ==
unfoldable pub comm_eq : PageCommMsg → PageCommMsg → Bool
comm_eq a b =
    a.page_num == b.page_num && is_eq (strcmp a.folder b.folder) && is_eq (strcmp a.name b.name)

-- operator <
unfoldable pub comm_lt : PageCommMsg → PageCommMsg → Bool
comm_lt a b =
    if is_eq (strcmp a.folder b.folder)
    then if is_eq (strcmp a.name b.name)
      then short_lt a.page_num b.page_num
      else is_lt (strcmp a.name b.name)
    else is_lt (strcmp a.folder b.folder)

-- The part of a message that the order reads, under which the engine counts readers and writers.
pub record FileKey : Type 0 where
  pub key_folder : Text
  pub key_name : Text
  pub key_page : ℕ

abbrev pub key_of : PageCommMsg → FileKey
key_of m = record { key_folder = m.folder; key_name = m.name; key_page = m.page_num }

abbrev pub key_beq : FileKey → FileKey → Bool
key_beq a b =
    a.key_page == b.key_page && text_eq a.key_folder b.key_folder && text_eq a.key_name b.key_name

pub key_beq_iff : (a b : FileKey) → (key_beq a b ≡ true) ↔ (a ≡ b)
key_beq_iff a b = (
  λ h. ground (arith, text_eq_iff a.key_folder b.key_folder, text_eq_iff a.key_name b.key_name),
  λ h. ground (arith, text_eq_iff a.key_folder b.key_folder, text_eq_iff a.key_name b.key_name),
)

instance abbrev pub file_key : Eq FileKey
file_key = record { beq = key_beq; beq_iff = key_beq_iff }

abbrev pub max_comm_user_number : ℕ
max_comm_user_number = 1000

abbrev pub request_id_range : ℕ
request_id_range = 1000000

-- sizeof (PageCommMsg): a status, the two texts, a bool and two shorts
abbrev pub page_comm_msg_size : ℕ
page_comm_msg_size = 1 + journal_folder_max_length + journal_short_name_max_length + 1 + 2 + 2

abbrev pub comm_size : ℕ
comm_size = max_comm_user_number * page_comm_msg_size + 1024

-- What memset leaves in a message.
abbrev pub zero_msg : PageCommMsg
zero_msg = record {
  status = raw;
  folder = [];
  name = [];
  is_writer = false;
  page_num = 0;
  last_page_num = 0;
}

-- The messages of the mapped file, by index: GET_COMM_MSG (buffer, idx).
abbrev pub CommTable : Type 0
CommTable = ℕ → PageCommMsg

unfoldable pub set_msg : ℕ → PageCommMsg → CommTable → CommTable
set_msg idx msg t i = if i == idx then msg else t i

unfoldable pub set_comm_status : ℕ → CommStatus → CommTable → CommTable
unfolding set_msg
set_comm_status idx s t = set_msg idx (record (t idx) { status = s }) t
