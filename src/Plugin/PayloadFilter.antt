-- ===== src/Plugin/PayloadFilter.antt =====
-- src/plugin/payload_filter.rs: keywords in the payload.
use lumen_mq.Prelude.{
  ℕ, zero, suc, Bool, true, false, ◌&&◌, ◌||◌, List, [], ◌∷◌, Str, Bytes, if◌then◌else◌, ltb,
  length, take, is_empty, ◌==◌, ◌-◌, list_same, nat_key, list_key,
}
use lumen_mq.Plugin.TopicAcl.{Verdict, allowed, denied_by_blacklist, denied_by_whitelist}

-- A text is its bytes, so that the keywords are kept as they are.
pub record PayloadFilter : Type 0 where
  pub blacklist : List Bytes
  pub whitelist : List Bytes

pub record PayloadFilterConfig : Type 0 where
  pub enabled : Bool
  pub blacklist_keywords : List Str
  pub whitelist_keywords : List Str

abbrev pub filter_from : PayloadFilterConfig → PayloadFilter
filter_from cfg = record { blacklist = cfg.blacklist_keywords; whitelist = cfg.whitelist_keywords }

abbrev pub no_keywords : PayloadFilter
no_keywords = record { blacklist = []; whitelist = [] }

-- `windows(n).any(|w| w == needle)`, with the windows that are left: as many as the length has above
-- the needle's, and one more.
unfoldable pub any_window : ℕ → Bytes → Bytes → Bool
unfolding list_same
any_window zero haystack needle = false
any_window (suc left) [] needle = false
any_window (suc left) (b ∷ haystack) needle =
    (take (length needle) (b ∷ haystack) == needle) || any_window left haystack needle

unfoldable pub contains_subslice : Bytes → Bytes → Bool
unfolding any_window
contains_subslice haystack needle =
    if is_empty needle
    then true
    else if ltb (length haystack) (length needle)
    then false
    else any_window (suc (length haystack - length needle)) haystack needle

unfoldable pub any_keyword : Bytes → List Bytes → Bool
unfolding contains_subslice
any_keyword payload [] = false
any_keyword payload (kw ∷ keywords) = contains_subslice payload kw || any_keyword payload keywords

-- `check`.
unfoldable pub check_payload : Bytes → PayloadFilter → Verdict
unfolding any_keyword
check_payload payload f =
    if any_keyword payload f.blacklist
    then denied_by_blacklist
    else if is_empty f.whitelist
    then allowed
    else if any_keyword payload f.whitelist
    then allowed
    else denied_by_whitelist

abbrev pub no_rules : PayloadFilter → Bool
no_rules f = is_empty f.blacklist && is_empty f.whitelist
