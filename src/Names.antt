-- ===== src/Names.antt =====
-- backend/pullbackup/services/runner.py: the syntax of dataset names, hosts and users. Each `fullmatch`
-- of a regular expression is the test that the expression describes.
use Prim.Native.Char.{Char, code}
use Prim.Native.String.{◌++◌ as text_append}
use pullbackup.Base.{
  ℕ, String, Bool, true, false, not, ◌&&◌, ◌||◌, List, [], ◌∷◌, Option, none, some, any, leb, ltb,
  ◌==◌, nat_comparable, text_comparable, if◌then◌else◌,
}
use pullbackup.Base.Text.{starts_with}
use pullbackup.Base.Words.{text_length, split_on, stripped_parts}

-- `[A-Za-z0-9]`
abbrev pub is_alphanumeric : Char → Bool
is_alphanumeric c =
    let k = code c in (leb 48 k && leb k 57) || (leb 65 k && leb k 90) || (leb 97 k && leb k 122)

abbrev pub is_letter : Char → Bool
is_letter c = let k = code c in (leb 65 k && leb k 90) || (leb 97 k && leb k 122)

-- A character that has one of these codes.
abbrev pub is_one_of : List ℕ → Char → Bool
is_one_of codes c = any (λ k. code c == k) codes

abbrev pub every_char : (Char → Bool) → String → Bool
every_char test String.[] = true
every_char test (String.◌∷◌ c s) = test c && every_char test s

abbrev pub every : (String → Bool) → List String → Bool
every test [] = true
every test (s ∷ rest) = test s && every test rest

-- `[A-Za-z0-9][A-Za-z0-9_.:%-]*`
unfoldable pub is_dataset_component : String → Bool
is_dataset_component String.[] = false
is_dataset_component (String.◌∷◌ c s) =
    is_alphanumeric c
    && every_char (λ d. is_alphanumeric d || is_one_of (95 ∷ 46 ∷ 58 ∷ 37 ∷ 45 ∷ []) d) s

-- `_ZFS_DATASET.fullmatch`
unfoldable pub is_dataset : String → Bool
unfolding split_on is_dataset_component
is_dataset s = every is_dataset_component (split_on 47 s)

-- The rest of a label of a host: letters, digits and hyphens, with no hyphen at the end.
abbrev pub ends_label : String → Bool
ends_label String.[] = true
ends_label (String.◌∷◌ c String.[]) = is_alphanumeric c
ends_label (String.◌∷◌ c (String.◌∷◌ d s)) =
    (is_alphanumeric c || code c == 45) && ends_label (String.◌∷◌ d s)

-- `[A-Za-z0-9](?:[A-Za-z0-9-]{0,61}[A-Za-z0-9])?`
unfoldable pub is_host_label : String → Bool
is_host_label String.[] = false
is_host_label (String.◌∷◌ c s) = is_alphanumeric c && ends_label s && leb (text_length s) 62

-- `_SSH_HOST.fullmatch`
unfoldable pub is_host : String → Bool
unfolding split_on is_host_label
is_host s = every is_host_label (split_on 46 s)

-- `_SSH_USER.fullmatch`
unfoldable pub is_user : String → Bool
is_user String.[] = false
is_user (String.◌∷◌ c s) =
    (is_letter c || code c == 95)
    && every_char (λ d. is_alphanumeric d || is_one_of (95 ∷ 46 ∷ 45 ∷ []) d) s

-- The validators answer their argument, or `none` where they raise `ValueError`.
unfoldable pub validate_zfs_source : String → Option String
validate_zfs_source dataset = if is_dataset dataset then some dataset else none

unfoldable pub validate_ssh_host : String → Option String
validate_ssh_host host =
    if ltb 253 (text_length host) || not (is_host host) then none else some host

unfoldable pub validate_ssh_user : String → Option String
validate_ssh_user user =
    if ltb 255 (text_length user) || not (is_user user) then none else some user

-- The loop of `validate_zfs_destination` over the roots.
unfoldable pub find_zfs_root : String → List String → Option String
find_zfs_root dataset [] = none
find_zfs_root dataset (root ∷ roots) =
    let later = find_zfs_root dataset roots in
    if not (is_dataset root)
    then none
    else if starts_with dataset (text_append root "/")
    then some dataset
    else later

unfoldable pub validate_zfs_destination : List String → String → Option String
validate_zfs_destination roots dataset =
    if not (is_dataset dataset) then none else find_zfs_root dataset roots

-- `str.strip("/")`
strip_left_slash : String → String
strip_left_slash String.[] = ""
strip_left_slash (String.◌∷◌ c s) =
    let rest = strip_left_slash s in if code c == 47 then rest else String.◌∷◌ c s

strip_right_slash : String → String
strip_right_slash String.[] = ""
strip_right_slash (String.◌∷◌ c s) =
    let rest = strip_right_slash s in if code c == 47 && rest == "" then "" else String.◌∷◌ c rest

abbrev normalize_all : List String → List String
unfolding strip_left_slash strip_right_slash
normalize_all [] = []
normalize_all (value ∷ rest) =
    let normalized = strip_right_slash (strip_left_slash value) in
    if normalized == "" then normalize_all rest else normalized ∷ normalize_all rest

-- `settings.zfs_dest_roots_list`
unfoldable pub zfs_dest_roots_list : String → List String
unfolding stripped_parts normalize_all
zfs_dest_roots_list zfs_dest_roots = normalize_all (stripped_parts 44 zfs_dest_roots)
