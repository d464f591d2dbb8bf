-- ===== src/Inst.antt =====
-- xrmIocApp/src/acq400_INST.{h,cpp}: the driver that runs a child process beside the data
-- acquisition and shows the messages that it sends. socketpair(), fork(), exec() and the ioctls
-- and reads on the socket are not modelled: what they give is an argument.
pub mod Env
pub mod Launch
pub mod Message
pub mod Task
pub mod Alive
pub mod Stages
pub mod Running
pub mod Examples
use acq400_xrm.Prelude.{
  ℕ, ◌+◌, ◌<◌, ◌≡◌, Bool, true, false, ◌&&◌, Option, none, some, List, [], ◌∷◌, ◌++◌, length, take,
  ltb, ◌==◌, if◌then◌else◌, arith, length-append,
}
use acq400_xrm.Prelude.Int.{ℤ, pos}
use acq400_xrm.Prelude.Text.{Text, codes, print_int, length-print_int, eqb}
use acq400_xrm.Driver.{Checked}

-- struct child_process_info
pub record ChildProcessInfo : Type 0 where
  pub pid : ℤ
  pub fd : ℤ

-- cpi = {}
abbrev pub no_child : ChildProcessInfo
no_child = record { pid = pos 0; fd = pos 0 }

abbrev pub maxread_backlog : ℕ
maxread_backlog = 2

-- The parameters that hold a text.
pub data TextParam : Type 0 where
  p_inst_strategy p_redis_host p_redis_port p_redis_mkey p_redis_status p_redis_mmkey : TextParam
  p_acq_port p_stream_subset_mask : TextParam

-- send_buffer_numbers and block_on_new_buffer
pub record Mode : Type 0 where
  pub send_buffer_numbers : Bool
  pub block_on_new_buffer : Bool

-- acq400_INST_STR and acq400_INST_SPY
abbrev pub mode_str : Mode
mode_str = record { send_buffer_numbers = false; block_on_new_buffer = false }

abbrev pub mode_spy : Mode
mode_spy = record { send_buffer_numbers = true; block_on_new_buffer = true }

-- acq400_INST_Configure(): the class that its second argument names; `none` is the failed assert.
unfoldable pub configure : Text → Checked Mode
configure stream_or_spy =
    if eqb (take 3 stream_or_spy) (codes "STR")
    then some mode_str
    else if eqb stream_or_spy (codes "SPY")
    then some mode_spy
    else none

-- getenv_default(), for what getenv() gives.
unfoldable pub getenv_default : Option Text → Text → Text
getenv_default none def = def
getenv_default (some value) def = value

-- key=value
unfoldable pub key_equals : Text → Text → Text
key_equals key value = key ++ b'=' ∷ value

-- sprintf() into a buffer of `size` bytes; `none` is a write behind it.
unfoldable pub sprintf_into : ℕ → Text → Checked Text
sprintf_into size text = if ltb (length text) size then some text else none

-- The assert of make_kev_from_ip() is on the length that the same call returns.
unfoldable pub make_kev_from_ip : Text → ℤ → Checked Text
unfolding sprintf_into
make_kev_from_ip ps_name value =
    sprintf_into (length ps_name + 1 + 23 + 1) (key_equals ps_name (print_int value))

-- value_buf is what gsp() gives.
unfoldable pub make_kev_from_sp : Text → Text → Checked Text
make_kev_from_sp ps_name value_buf =
    sprintf_into (length ps_name + 1 + length value_buf + 1) (key_equals ps_name value_buf)

-- snprintf() cuts where sprintf() would write on.
unfoldable pub make_kev_from_kvs : Text → Text → Text
make_kev_from_kvs key value = take (length key + 1 + length value) (key_equals key value)

unfoldable pub make_kev_from_kvi : Text → ℤ → Checked Text
make_kev_from_kvi key value =
    sprintf_into (length key + 1 + 23 + 1) (key_equals key (print_int value))

-- All texts are made, whatever they hold.
pub sprintf_into-some :
    (size : ℕ) (text : Text) → length text < size → sprintf_into size text ≡ some text
unfolding sprintf_into
sprintf_into-some size text h = ground arith

pub make_kev_from_sp-some :
    (key value : Text) → make_kev_from_sp key value ≡ some (key_equals key value)
unfolding make_kev_from_sp key_equals
make_kev_from_sp-some key value =
    sprintf_into-some _ _ (omega (arith, length-append key (b'=' ∷ value)))

pub make_kev_from_kvi-some :
    (key : Text) (value : ℤ) → make_kev_from_kvi key value ≡ some (key_equals key (print_int value))
unfolding make_kev_from_kvi key_equals
make_kev_from_kvi-some key value =
    sprintf_into-some _ _
      (omega (arith, length-append key (b'=' ∷ print_int value), length-print_int value))

pub make_kev_from_ip-some :
    (key : Text) (value : ℤ) → make_kev_from_ip key value ≡ some (key_equals key (print_int value))
unfolding make_kev_from_ip key_equals
make_kev_from_ip-some key value =
    sprintf_into-some _ _
      (omega (arith, length-append key (b'=' ∷ print_int value), length-print_int value))
