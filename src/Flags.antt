-- ===== src/Flags.antt =====
-- core/src/internal_flags.rs: which internal flags a workflow may use, and which it has to report.
-- The `BTreeSet`s and `HashSet`s are lists without duplicates, in the order of insertion.
pub mod Laws
use sdk_core.Prelude.{
  ℕ, Bool, true, false, ◌||◌, not, Option, none, some, List, [], ◌∷◌, map, Text, text_eq, is_empty,
  ◌==◌, if◌then◌else◌,
}

pub data CoreInternalFlags : Type 0 where
  id_and_type_determinism_checks upsert_search_attribute_on_patch move_terminal_commands too_high :
      CoreInternalFlags

-- The explicit value of a variant.
unfoldable pub to_u32 : CoreInternalFlags → ℕ
to_u32 id_and_type_determinism_checks = 1
to_u32 upsert_search_attribute_on_patch = 2
to_u32 move_terminal_commands = 3
to_u32 too_high = 4294967295

unfoldable pub from_u32 : ℕ → CoreInternalFlags
from_u32 v =
    if v == 1
    then id_and_type_determinism_checks
    else if v == 2
    then upsert_search_attribute_on_patch
    else if v == 3
    then move_terminal_commands
    else too_high

-- `all_except_too_high`.
abbrev pub all_known : List CoreInternalFlags
all_known =
    id_and_type_determinism_checks ∷ upsert_search_attribute_on_patch ∷ move_terminal_commands ∷ []

-- Sets of numbers. A core flag is kept as its value.
unfoldable pub contains : ℕ → List ℕ → Bool
contains x [] = false
contains x (y ∷ ys) = (y == x) || contains x ys

unfoldable pub insert : ℕ → List ℕ → List ℕ
unfolding contains
insert x ys = if contains x ys then ys else x ∷ ys

unfoldable pub extend : List ℕ → List ℕ → List ℕ
unfolding insert
extend ys [] = ys
extend ys (x ∷ xs) = extend (insert x ys) xs

-- `iter().filter(|f| !known.contains(f))`.
unfoldable pub difference : List ℕ → List ℕ → List ℕ
unfolding contains
difference [] known = []
difference (x ∷ xs) known =
    let rest = difference xs known in if contains x known then rest else x ∷ rest

pub record Enabled : Type 0 where
  pub core : List ℕ
  pub lang : List ℕ
  pub core_since_last_complete : List ℕ
  pub lang_since_last_complete : List ℕ
  pub last_sdk_name : Text
  pub last_sdk_version : Text
  pub sdk_name : Text
  pub sdk_version : Text

pub data InternalFlags : Type 0 where
  enabled : Enabled → InternalFlags
  disabled : InternalFlags

-- `WorkflowTaskCompletedMetadata`.
pub record Metadata : Type 0 where
  pub core_used_flags : List ℕ
  pub lang_used_flags : List ℕ
  pub sdk_name : Text
  pub sdk_version : Text

unfoldable pub new : Bool → Text → Text → InternalFlags
new true name version = enabled (record {
  core = [];
  lang = [];
  core_since_last_complete = [];
  lang_since_last_complete = [];
  last_sdk_name = [];
  last_sdk_version = [];
  sdk_name = name;
  sdk_version = version;
})
new false name version = disabled

-- The numbers that `from_u32` reads and a set of flags then holds.
unfoldable pub as_flags : List ℕ → List ℕ
unfolding from_u32 to_u32
as_flags = map (λ u. to_u32 (from_u32 u))

unfoldable pub add_from_complete : InternalFlags → Option Metadata → InternalFlags
unfolding extend as_flags is_empty
add_from_complete disabled m = disabled
add_from_complete (enabled f) none = enabled f
add_from_complete (enabled f) (some m) = enabled (record f {
  core = extend f.core (as_flags m.core_used_flags);
  lang = extend f.lang m.lang_used_flags;
  last_sdk_name = if is_empty m.sdk_name then f.last_sdk_name else m.sdk_name;
  last_sdk_version = if is_empty m.sdk_version then f.last_sdk_version else m.sdk_version;
})

unfoldable pub add_lang_used : InternalFlags → List ℕ → InternalFlags
unfolding extend
add_lang_used disabled flags = disabled
add_lang_used (enabled f) flags =
    enabled (record f { lang_since_last_complete = extend f.lang_since_last_complete flags })

-- The set is behind `&mut`: the flags after the call, and whether the flag may be used.
unfoldable pub try_use : InternalFlags → CoreInternalFlags → Bool → InternalFlags × Bool
unfolding insert contains to_u32
try_use disabled flag should_record = (disabled, false)
try_use (enabled f) flag true = (
  enabled (record f { core_since_last_complete = insert (to_u32 flag) f.core_since_last_complete }),
  true,
)
try_use (enabled f) flag false = (enabled f, contains (to_u32 flag) f.core)

unfoldable pub write_all_known : InternalFlags → InternalFlags
unfolding extend to_u32
write_all_known disabled = disabled
write_all_known (enabled f) = enabled (record f {
  core_since_last_complete = extend f.core_since_last_complete (map to_u32 all_known);
})

-- The name or version, if it is not the one that the server knows already.
news : Text → Text → Text
news last current = if text_eq last current then [] else current

-- The two `since_last_complete` sets are not emptied, as in the source.
unfoldable pub gather_for_wft_complete : InternalFlags → InternalFlags × Metadata
unfolding difference extend news
gather_for_wft_complete disabled = (
  disabled,
  record { core_used_flags = []; lang_used_flags = []; sdk_name = []; sdk_version = [] },
)
gather_for_wft_complete (enabled f) = (
  enabled (record f {
    core = extend f.core f.core_since_last_complete;
    lang = extend f.lang f.lang_since_last_complete;
  }),
  record {
    core_used_flags = difference f.core_since_last_complete f.core;
    lang_used_flags = difference f.lang_since_last_complete f.lang;
    sdk_name = news f.last_sdk_name f.sdk_name;
    sdk_version = news f.last_sdk_version f.sdk_version;
  },
)

unfoldable pub all_lang : InternalFlags → List ℕ
all_lang disabled = []
all_lang (enabled f) = f.lang
