-- ===== src/Ftp/Listing.antt =====
-- src/ftp_server.cpp, the text that LIST sends: `fmt_month`, `fmt_unixtime` and `dir_listing`, as they
-- are built for POSIX.
use mock_services.Base.{
  ℕ, ◌+◌, ◌-◌, Bool, false, ◌&&◌, ◌||◌, Option, none, some, List, [], ◌∷◌, ◌++◌, ltb, leb,
  if◌then◌else◌, get_elem?, Text, text, ◌==◌, text_key, to_string,
}

-- The fields of a `tm` that are printed; a month counts from 0.
pub record Time : Type 0 where
  pub mon : ℕ
  pub mday : ℕ
  pub hour : ℕ
  pub min : ℕ

-- What `stat` tells of an entry.
pub record Stat : Type 0 where
  pub is_dir : Bool
  pub size : ℕ
  pub mtime : ℕ

-- An entry that `readdir` returns; `none` is a `stat` that fails.
pub record Entry : Type 0 where
  pub name : Text
  pub stat : Option Stat

abbrev month_names : List Text
month_names =
    text "Jan"
    ∷ text "Feb"
    ∷ text "Mar"
    ∷ text "Apr"
    ∷ text "May"
    ∷ text "Jun"
    ∷ text "Jul"
    ∷ text "Aug"
    ∷ text "Sep"
    ∷ text "Oct"
    ∷ text "Nov"
    ∷ text "Dec"
    ∷ []

unfoldable pub fmt_month : ℕ → Text
fmt_month month =
    let named : Text = elim (get_elem? month_names (month - 1)) [ none ↦ [] | some name ↦ name ] in
    if leb 1 month && leb month 12 then named else text "???"

-- `%02d` of a number that is not negative.
unfoldable pub two_digits : ℕ → Text
two_digits n = if ltb n 10 then b'0' ∷ to_string n else to_string n

-- `local` is `localtime_r`.
unfoldable pub fmt_unixtime : (ℕ → Time) → ℕ → Text
fmt_unixtime local timestamp =
    let time = local timestamp in
    fmt_month (time.mon + 1)
    ++ (b' '
        ∷ (two_digits time.mday ++ (b' ' ∷ (two_digits time.hour ++ (b':' ∷ two_digits time.min)))))

-- One line; what `stat` does not tell is 0, and no directory.
unfoldable pub listing_line : (ℕ → Time) → Entry → Text
listing_line local entry =
    let st : Stat = elim entry.stat [
      | some st ↦ st
      | none ↦ record { is_dir = false; size = 0; mtime = 0 }
    ] in
    (if st.is_dir then text "drwx------" else text "-rwx------")
    ++ (text " 1 owner group "
        ++ (to_string st.size
            ++ (b' ' ∷ (fmt_unixtime local st.mtime ++ (b' ' ∷ (entry.name ++ text "\r\n"))))))

unfoldable pub listing_lines : (ℕ → Time) → List Entry → Text
listing_lines local [] = []
listing_lines local (entry ∷ entries) =
    let rest = listing_lines local entries in
    if entry.name == text "." || entry.name == text ".."
    then rest
    else listing_line local entry ++ rest

-- `none` is an `opendir` that fails.
unfoldable pub dir_listing : (ℕ → Time) → Option (List Entry) → Text
dir_listing local none = []
dir_listing local (some entries) = listing_lines local entries
