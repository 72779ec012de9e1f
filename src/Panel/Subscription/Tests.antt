-- ===== src/Panel/Subscription/Tests.antt =====
-- A source that is refreshed and served, and the theorems on it.
use ladder_airport.Base.{
  if◌then◌else◌, Result, err, ok, ℕ, String, ◌≡◌, refl, true, none, List, [], ◌∷◌, arith, str_eq,
}
use ladder_airport.Panel.Subscription.{
  ExternalSource, get_external_source, update_source, has_source, save_external_source_cache,
  Outside, fetch_entry, do_refresh, effective_ttl, reread, body_for_source,
}
use ladder_airport.Panel.Subscription.Cache.{IsGood}
use ladder_airport.Panel.Subscription.Fresh.{
  Serves, refreshes, refreshes-IsGood, body_for_source-Serves,
}

-- A body is one proxy, and a blank one none.
abbrev parser : String → Result (List String × String)
parser body = if str_eq body "" then err "订阅内容为空" else ok (body ∷ [], "share_links")

abbrev source : ExternalSource
source = record {
  id = "s";
  name = "airport";
  url = "https://example.org/s";
  headers = [];
  enabled = true;
  refresh_interval_sec = 0;
  last_fetch_unix = 5;
  last_success_unix = 5;
  last_error = "";
  content_type = "share_links";
  cached_proxy_count = 1;
  cached_body = "ss://a";
  created_at_unix = 1;
  updated_at_unix = 5;
}

abbrev offline : ℕ → Outside
offline now = record {
  now = now;
  fetch_url = λ _ _. err "timeout";
  get_fault = none;
  save_fault = none;
}

abbrev online : ℕ → Outside
online now = record {
  now = now;
  fetch_url = λ _ _. ok "ss://b";
  get_fault = none;
  save_fault = none;
}

abbrev calls : List (Outside × String)
calls = (offline 100000, "s") ∷ (online 200000, "s") ∷ (offline 300000, "s") ∷ []

abbrev rows : List ExternalSource
rows = source ∷ []

refreshes-IsGood_example :
    (src' : ExternalSource) × (get_external_source none "s" (refreshes parser calls rows) ≡ ok src')
    × IsGood parser src'
refreshes-IsGood_example =
    refreshes-IsGood parser calls "s" rows source (unfold get_external_source in refl)
      (unfold IsGood in ("ss://a" ∷ [], refl, refl, omega arith))

body_for_source-Serves_example :
    Serves 300000 "s"
      (body_for_source parser (online 300000) none source rows).0
      (body_for_source parser (online 300000) none source rows).1
unfolding get_external_source update_source has_source save_external_source_cache fetch_entry
    do_refresh effective_ttl reread body_for_source
body_for_source-Serves_example =
    body_for_source-Serves parser (online 300000) none source rows refl refl refl
