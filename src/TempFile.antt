-- ===== src/TempFile.antt =====
-- src/temp_file.cc and src/temp_file.h. The file system is the set of the paths at which there is a
-- file; the removal of a file by its owner succeeds.
pub mod Laws
use onnxruntime_ep_iree.Common.{
  ℕ, ◌+◌, ◌*◌, ◌%◌, ◌^◌, Bool, true, false, not, ◌&&◌, ◌||◌, [], ◌++◌, if◌then◌else◌, Text, codes,
  text_eq, is_empty,
}
use onnxruntime_ep_iree.Common.Decimal.{to_string}
use onnxruntime_ep_iree.Common.Paths.{append_path}

-- Whether there is a file.
abbrev pub Files : Type 0
Files = Text → Bool

unfoldable pub create : Text → Files → Files
create path files q = text_eq q path || files q

unfoldable pub remove : Text → Files → Files
remove path files q = not (text_eq q path) && files q

pub record TempFile : Type 0 where
  pub path : Text
  pub keep : Bool

-- The value of the two calls of `rd`, each below 2 ^ 32: the bits of the second fill those that the
-- shift leaves.
unfoldable pub random_value : ℕ → ℕ → ℕ
random_value high low = (high * 2 ^ 32) % 2 ^ 64 + low

unfoldable pub temp_path : Text → Text → ℕ → Text
temp_path temp_dir suffix value =
    append_path temp_dir (codes "iree_ep_" ++ (to_string value ++ suffix))

-- The constructor; `opened` is whether the stream can create the file.
unfoldable pub new_temp_file : Text → Text → ℕ → ℕ → Bool → Files → TempFile × Files
new_temp_file temp_dir suffix high low opened files =
    let path = temp_path temp_dir suffix (random_value high low) in
    (record { path = path; keep = false }, if opened then create path files else files)

unfoldable pub keep_file : TempFile → TempFile
keep_file t = record t { keep = true }

-- The destructor, and the first part of the assignment.
unfoldable pub destroy : TempFile → Files → Files
destroy t files = if not (is_empty t.path) && not t.keep then remove t.path files else files

abbrev pub moved_from : TempFile
moved_from = record { path = []; keep = false }

-- The new object, and the one that was moved from.
unfoldable pub move_construct : TempFile → TempFile × TempFile
move_construct other = (other, moved_from)

-- The assignment between two different objects; the assignment of an object to itself does nothing.
unfoldable pub move_assign : TempFile → TempFile → Files → TempFile × TempFile × Files
unfolding destroy
move_assign t other files = (other, moved_from, destroy t files)
