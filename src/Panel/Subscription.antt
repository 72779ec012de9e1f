-- ===== src/Panel/Subscription.antt =====
-- The cache of external subscriptions, panel/internal/subscription/cache.go, with the table
-- external_sources of panel/internal/store/store.go. Times are seconds; a clock that runs back counts
-- as one that stands still, which the tests of the age answer alike.
pub mod Cache
pub mod Fresh
mod Tests
use Prim.Native.Nat.{◌/◌}
use ladder_airport.Base.{
  ltb, ◌==◌, if◌then◌else◌, length, Result, err, ok, ℕ, ◌+◌, ◌-◌, ◌*◌, ◌/◌, ◌%◌, ◌^◌, String, Bool,
  true, false, not, ◌&&◌, ◌||◌, Option, none, some, List, [], ◌∷◌, str_eq,
}
use Prim.Native.String.{◌++◌ as concat}

pub record ExternalSource : Type 0 where
  pub id : String
  pub name : String
  pub url : String
  pub headers : List (String × String)
  pub enabled : Bool
  pub refresh_interval_sec : ℕ
  pub last_fetch_unix : ℕ
  pub last_success_unix : ℕ
  pub last_error : String
  pub content_type : String
  pub cached_proxy_count : ℕ
  pub cached_body : String
  pub created_at_unix : ℕ
  pub updated_at_unix : ℕ

abbrev pub is_source : String → ExternalSource → Bool
is_source id src = str_eq src.id id

-- `fault` is that of the database.
unfoldable pub get_external_source :
    Option String → String → List ExternalSource → Result ExternalSource
get_external_source (some e) id rows = err e
get_external_source none id [] = err "外部源不存在"
get_external_source none id (src ∷ rows) =
    let rest = get_external_source none id rows in if is_source id src then ok src else rest

-- The columns that a refresh writes.
pub record CacheEntry : Type 0 where
  pub body : String
  pub kind : String
  pub proxy_count : ℕ
  pub fetch_unix : ℕ
  pub success_unix : ℕ
  pub error : String

abbrev pub with_entry : ℕ → CacheEntry → ExternalSource → ExternalSource
with_entry now entry src = record src {
  last_fetch_unix = entry.fetch_unix;
  last_success_unix = entry.success_unix;
  last_error = entry.error;
  content_type = entry.kind;
  cached_body = entry.body;
  cached_proxy_count = entry.proxy_count;
  updated_at_unix = now;
}

unfoldable pub update_source :
    (ExternalSource → ExternalSource) → String → List ExternalSource → List ExternalSource
update_source f id [] = []
update_source f id (src ∷ rows) =
    let rest = update_source f id rows in (if is_source id src then f src else src) ∷ rest

unfoldable pub has_source : String → List ExternalSource → Bool
has_source id [] = false
has_source id (src ∷ rows) = let rest = has_source id rows in is_source id src || rest

unfoldable pub save_external_source_cache :
    Option String
    → ℕ
    → String
    → CacheEntry
    → List ExternalSource
    → Option String × List ExternalSource
save_external_source_cache fault now id entry rows =
    if str_eq id "" then (some "必须提供外部源 ID", rows) else elim fault [
      | some e ↦ (some (concat "保存外部源缓存失败：" e), rows)
      | none ↦
          if has_source id rows
          then (none, update_source (with_entry now entry) id rows)
          else (some (concat "外部源不存在：" id), rows)
    ]

-- What a refresh meets: the network and the faults of the database.
pub record Outside : Type 0 where
  pub now : ℕ
  pub fetch_url : String → List (String × String) → Result String
  pub get_fault : Option String
  pub save_fault : Option String

abbrev pub failed_entry : ExternalSource → ℕ → String → CacheEntry
failed_entry src now e = record {
  body = src.cached_body;
  kind = src.content_type;
  proxy_count = src.cached_proxy_count;
  fetch_unix = now;
  success_unix = src.last_success_unix;
  error = e;
}

abbrev pub good_entry : ℕ → String → String → ℕ → CacheEntry
good_entry now body kind count = record {
  body = body;
  kind = kind;
  proxy_count = count;
  fetch_unix = now;
  success_unix = now;
  error = "";
}

-- `detect_and_parse` is any parser of bodies, with the kind that it detects.
module _ {ℓ} {Endpoint : Type ℓ} (detect_and_parse : String → Result (List Endpoint × String)) where
  -- What the fetch gives: the entry of a body with proxies, or an error.
  unfoldable pub fetch_entry : Outside → ExternalSource → Result CacheEntry
  fetch_entry out src = elim (out.fetch_url src.url src.headers) [
    | err e ↦ err e
    | ok body ↦ elim (detect_and_parse body) [
      | err e ↦ err e
      | ok (eps, kind) ↦
          if length eps == 0 then err "未解析出任何代理" else ok (good_entry out.now body kind (length eps))
    ]
  ]

  unfoldable pub do_refresh :
      Outside → String → List ExternalSource → Option String × List ExternalSource
  do_refresh out id rows = elim (get_external_source out.get_fault id rows) [
    | err e ↦ (some e, rows)
    | ok src ↦ elim (fetch_entry out src) [
      | err e ↦ (
        some e,
        (save_external_source_cache out.save_fault out.now id (failed_entry src out.now e) rows).1,
      )
      | ok entry ↦ save_external_source_cache out.save_fault out.now id entry rows
    ]
  ]

abbrev pub second : ℕ
second = 10 ^ 9

-- A duration has 64 bits: one from 2^63 on is negative. In seconds.
unfoldable pub effective_ttl : ℕ → ℕ
effective_ttl sec =
    let d = (sec * second) % 2 ^ 64 in
    if sec == 0
    then 86400
    else if not (ltb d (2 ^ 63)) || ltb d (60 * second)
    then 60
    else if ltb (86400 * second) d
    then 86400
    else d / second

abbrev pub stale_grace : ℕ
stale_grace = 86400

abbrev pub younger : ℕ → ℕ → ExternalSource → Bool
younger age now src =
    not (str_eq src.cached_body "")
    && ltb 0 src.last_success_unix
    && ltb (now - src.last_success_unix) age

-- The answer for a source, and whether a refresh goes on in the background.
pub record SourceBody : Type 0 where
  pub body : String
  pub kind : String
  pub warning : String
  pub refreshes : Bool

abbrev pub answer_of : ExternalSource → Bool → String → SourceBody
answer_of src refreshes warning = record {
  body = src.cached_body;
  kind = src.content_type;
  warning = warning;
  refreshes = refreshes;
}

abbrev pub no_body : String → SourceBody
no_body warning = record { body = ""; kind = ""; warning = warning; refreshes = false }

-- The read after a refresh that succeeded.
unfoldable pub reread : Option String → String → List ExternalSource → SourceBody
reread fault id rows = elim (get_external_source fault id rows) [
  | err e ↦ no_body "刷新结果为空，未更新缓存"
  | ok updated ↦
      if str_eq updated.cached_body "" then no_body "刷新结果为空，未更新缓存" else answer_of updated false ""
]

abbrev pub failed_answer : String → ExternalSource → SourceBody
failed_answer e src =
    if str_eq src.cached_body ""
    then no_body (concat "刷新失败：" e)
    else answer_of src false (concat "刷新失败，正在使用旧缓存：" e)

module _ {ℓ} {Endpoint : Type ℓ} (detect_and_parse : String → Result (List Endpoint × String)) where
  unfoldable pub body_for_source :
      Outside
      → Option String
      → ExternalSource
      → List ExternalSource
      → SourceBody × List ExternalSource
  body_for_source out reread_fault src rows =
      let ttl = effective_ttl src.refresh_interval_sec in
      let (failure, rows') = do_refresh detect_and_parse out src.id rows in
      if younger ttl out.now src
      then (answer_of src false "", rows)
      else if younger (ttl + stale_grace) out.now src
      then (answer_of src true "", rows)
      else elim failure [
        | some e ↦ (failed_answer e src, rows')
        | none ↦ (reread reread_fault src.id rows', rows')
      ]
