-- ===== src/Sftp/Messages.antt =====
-- src/sftp_handlers.cpp: messages, handles, attributes and flags, what a handler does, and what the
-- system answers.
use mock_services.Base.{
  ℕ, ◌%◌, ◌^◌, bit_and, Bool, not, ◌||◌, Option, none, some, List, [], ◌∷◌, nat_eq, if◌then◌else◌,
  Text, text, text_key,
}
use mock_services.Sftp.Path.{resolve_path}

-- `sftp_permission`: `none` 0, `read` 1, `write` 2, `all` 3.
abbrev pub Permission : Type 0
Permission = ℕ

-- The fields of `sftp_attributes_struct` that `make_attr` fills.
pub record Attr : Type 0 where
  pub name : Text
  pub size : ℕ
  pub permissions : ℕ
  pub atime : ℕ
  pub mtime : ℕ
  pub flags : ℕ
  pub kind : ℕ

-- What a handle of the client stands for: `FileData`, with whether its `fp` is set, or `DirData`.
pub data HandleData : Type 0 where
  file : Text → Bool → HandleData
  directory : Text → HandleData

pub data Status : Type 0 where
  fx_ok eof no_such_file permission_denied failure op_unsupported : Status
  invalid_handle no_such_path : Status

-- What a handler does, in order: the replies, the entries of the activity log, the calls on the
-- file system, and the handles. `confused` is a `static_cast` to the wrong kind of handle, whose
-- outcome the language leaves open.
pub data Effect : Type 0 where
  status : Status → Effect
  sent_handle : HandleData → Effect
  sent_data : List ℕ → Effect
  sent_name : Text → Option Attr → Effect
  sent_attr : Attr → Effect
  logged : Text → Text → Text → Effect
  opened : Text → Text → Effect
  listed : Text → Effect
  wrote : Text → ℕ → List ℕ → Effect
  made removed unlinked : Text → Effect
  renamed : Text → Text → Effect
  dropped : HandleData → Effect
  confused : Effect

pub record Stat : Type 0 where
  pub size : ℕ
  pub mode : ℕ
  pub mtime : ℕ
  pub atime : ℕ

-- The answers of the operating system and of libssh while one message is handled: `can_alloc` is
-- `sftp_handle_alloc`, `can_reply` the status of the replies that carry something, and `entries`
-- what `readdir` has still to return.
pub record System : Type 0 where
  pub realpath : Text → Option Text
  pub can_open : Text → Text → Bool
  pub can_seek : ℕ → Bool
  pub contents : ℕ → ℕ → List ℕ
  pub accepted : ℕ → ℕ
  pub can_list : Text → Bool
  pub entries : List Text
  pub stat : Text → Option Stat
  pub can_calloc : Bool
  pub can_alloc : Bool
  pub can_reply : Bool
  pub can_make : Text → Bool
  pub can_remove : Text → Bool
  pub can_unlink : Text → Bool
  pub can_rename : Text → Text → Bool

-- The parts of a `sftp_client_message`; `info` is what `sftp_handle` gives for its handle.
pub record Message : Type 0 where
  pub filename : Text
  pub flags : ℕ
  pub info : Option HandleData
  pub offset : ℕ
  pub len : ℕ
  pub data_ : List ℕ
  pub submessage : Option Text
  pub str_data : Option Text

-- `SftpContext`
pub record Context : Type 0 where
  pub username : Text
  pub root : Text
  pub perm : Permission

-- `make_attr`, with the conversions to 32 bits.
unfoldable pub make_attr : System → Text → ℕ → ℕ → ℕ → ℕ → Option Attr
make_attr os name size perm mtime atime =
    let kind =
      if not (nat_eq (bit_and perm 0x4000) 0)
      then 2
      else if not (nat_eq (bit_and perm 0x8000) 0)
      then 1
      else 5 in
    let attr : Attr = record {
      name = name;
      size = size;
      permissions = perm % 2 ^ 32;
      atime = atime % 2 ^ 32;
      mtime = mtime % 2 ^ 32;
      flags = 13;
      kind = kind;
    } in
    if os.can_calloc then some attr else none

unfoldable pub stat_to_attr : System → Text → Text → Option Attr
stat_to_attr os full_path display_name = elim (os.stat full_path) [
  | none ↦ none
  | some st ↦ make_attr os display_name st.size st.mode st.mtime st.atime
]

-- `flags & bit`
abbrev pub has_flag : ℕ → ℕ → Bool
has_flag flags bit = not (nat_eq (bit_and flags bit) 0)

unfoldable pub can_read : Permission → Bool
can_read perm = has_flag perm 1

unfoldable pub can_write : Permission → Bool
can_write perm = has_flag perm 2

-- `SSH_FXF_READ` 1, `WRITE` 2, `APPEND` 4, `CREAT` 8, `TRUNC` 16
unfoldable pub sftp_flags_to_mode : ℕ → Text
sftp_flags_to_mode flags =
    if not (has_flag flags 2)
    then text "rb"
    else if has_flag flags 1
    then (if has_flag flags 4
        then text "ab+"
        else if has_flag flags 16
        then text "wb+"
        else text "rb+")
    else if has_flag flags 4
    then text "ab"
    else if has_flag flags 16 || has_flag flags 8
    then text "wb"
    else text "rb+"

abbrev pub ok_text : Text
ok_text = text "OK"

-- A log entry and a status, in the order of the refusals.
abbrev pub refuse : Text → Text → Text → Status → List Effect
refuse operation path result code = logged operation path result ∷ status code ∷ []

-- A reply that carries something; where it cannot be sent, some handlers send a status.
abbrev pub reply_or_fail : System → Effect → List Effect
reply_or_fail os reply = if os.can_reply then reply ∷ [] else status failure ∷ []

-- `ctx.resolve_path`
abbrev pub resolve_for : System → Context → Text → Bool → Text
resolve_for os ctx = resolve_path os.realpath ctx.root
