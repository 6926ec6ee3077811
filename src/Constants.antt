-- ===== src/Constants.antt =====
-- memoryManage/utils/constants.h, memoryManage/utils/memoryManage_declare.h and
-- system/systemConfig/sys_messages.h.
use option_hedge.Base.{ℕ, ◌*◌, ◌++◌}
use option_hedge.Base.Text.{Text, codes}
use option_hedge.Base.Word.{minus_one_long}

abbrev pub journal_short_name_max_length : ℕ
journal_short_name_max_length = 30

abbrev pub journal_folder_max_length : ℕ
journal_folder_max_length = 100

abbrev pub time_from_first : ℕ
time_from_first = 0

abbrev pub time_to_last : ℕ
time_to_last = minus_one_long

abbrev pub kb : ℕ
kb = 1024

abbrev pub mb : ℕ
mb = kb * kb

abbrev pub journal_page_size : ℕ
journal_page_size = 128 * mb

abbrev pub page_min_headroom : ℕ
page_min_headroom = 2 * mb

abbrev pub optionhedge_root_dir : Text
optionhedge_root_dir = codes "/home/xiayf/projects/optionHedge/build/"

abbrev pub journal_prefix : Text
journal_prefix = codes "optionHedge"

abbrev pub journal_suffix : Text
journal_suffix = codes "journal"

abbrev pub optionhedge_journal_folder : Text
optionhedge_journal_folder = optionhedge_root_dir ++ codes "journal/"

abbrev pub optionhedge_socket_folder : Text
optionhedge_socket_folder = optionhedge_root_dir ++ codes "socket/"

abbrev pub paged_journal_folder : Text
paged_journal_folder = optionhedge_journal_folder ++ codes "system/"

abbrev pub paged_journal_name : Text
paged_journal_name = codes "SYSTEM"

-- The system message types.
pub data MsgType : Type 0 where
  python_obj : MsgType
  strategy_start strategy_end trade_engine_login trade_engine_ack strategy_pos_set : MsgType
  paged_start paged_end : MsgType
  trade_engine_open trade_engine_close md_engine_open md_engine_close : MsgType
  switch_trading_day string_command : MsgType
  time_tick subscribe_market_data subscribe_l2_md subscribe_index subscribe_order_trade : MsgType
  engine_status memory_frozen : MsgType

unfoldable pub msg_type_code : MsgType → ℕ
msg_type_code python_obj = 0
msg_type_code strategy_start = 10
msg_type_code strategy_end = 11
msg_type_code trade_engine_login = 12
msg_type_code trade_engine_ack = 13
msg_type_code strategy_pos_set = 14
msg_type_code paged_start = 20
msg_type_code paged_end = 21
msg_type_code trade_engine_open = 30
msg_type_code trade_engine_close = 31
msg_type_code md_engine_open = 32
msg_type_code md_engine_close = 33
msg_type_code switch_trading_day = 34
msg_type_code string_command = 35
msg_type_code time_tick = 50
msg_type_code subscribe_market_data = 51
msg_type_code subscribe_l2_md = 52
msg_type_code subscribe_index = 53
msg_type_code subscribe_order_trade = 54
msg_type_code engine_status = 60
msg_type_code memory_frozen = 90
