-- ===== src/Uploads/Examples.antt =====
-- Names that a client gives (rust/crates/vocoderd/src/machines/file_uploads.rs).
use dsh_rs.Base.{◌≡◌, ◌≢◌, ◌≤◌, refl, ℕ, zero, suc, String, concat, some, false}
use dsh_rs.Commands.Parse.{trim_start, trim_end}
use dsh_rs.Teams.{is_blank}
use dsh_rs.Tool.Page.{byte_len}
use dsh_rs.Uploads.{
  has_separator, after_last, cleaned, all_dots_and_spaces, strip_trailing_dots_and_spaces,
  before_dot, after_name, is_windows_device_name, utf8_prefix, file_leaf_name,
}
use dsh_rs.Uploads.Names.{file_leaf_name_lem}

device : file_leaf_name (some "C:\\docs\\Con.txt ") ≡ "_Con.txt"
unfolding file_leaf_name after_last has_separator cleaned trim_start trim_end is_blank
    strip_trailing_dots_and_spaces all_dots_and_spaces is_windows_device_name before_dot after_name
    utf8_prefix
device = refl

climbing : file_leaf_name (some "../..") ≡ "file"
unfolding file_leaf_name after_last has_separator cleaned trim_start trim_end is_blank
    strip_trailing_dots_and_spaces all_dots_and_spaces is_windows_device_name before_dot after_name
    utf8_prefix
climbing = refl

abbrev spaces : ℕ → String
spaces zero = "x"
spaces (suc n) = String.◌∷◌ " " (spaces n)

-- The guard against names of devices stands before the cut, which can make one.
device_left : file_leaf_name (some (concat "con" (spaces 252))) ≡ "con"
unfolding file_leaf_name after_last has_separator cleaned trim_start trim_end is_blank
    strip_trailing_dots_and_spaces all_dots_and_spaces is_windows_device_name before_dot after_name
    utf8_prefix
device_left = refl

file_leaf_name_lem_example :
    (file_leaf_name (some "a/b?.txt") ≢ "")
    × (file_leaf_name (some "a/b?.txt") ≢ ".")
    × (file_leaf_name (some "a/b?.txt") ≢ "..")
    × (has_separator (file_leaf_name (some "a/b?.txt")) ≡ false)
    × (byte_len (file_leaf_name (some "a/b?.txt")) ≤ 255)
file_leaf_name_lem_example = file_leaf_name_lem (some "a/b?.txt")
