-- ===== src/Panel/Uplink/Hub.antt =====
-- The registry of the live connections, panel/internal/uplinkhub/hub.go. A connection is its number
-- in `sockets`, which stands for the pointer; a number from `next` on is no connection yet.
use ladder_airport.Base.{
  ◌==◌, if◌then◌else◌, ℕ, ◌+◌, String, Bool, false, Option, none, some, List, [], ◌∷◌, str_eq,
}
use ladder_airport.Panel.Uplink.{Conn, new_conn, shutdown}

pub record Hub : Type 0 where
  pub conns : List (String × ℕ)
  pub sockets : ℕ → Conn
  pub next : ℕ

unfoldable pub new_hub : Hub
new_hub = record { conns = []; sockets = λ _. new_conn ""; next = 0 }

-- The map of the hub.
unfoldable pub lookup_conn : String → List (String × ℕ) → Option ℕ
lookup_conn node_id [] = none
lookup_conn node_id ((n, ref) ∷ conns) =
    let rest = lookup_conn node_id conns in if str_eq n node_id then some ref else rest

unfoldable pub delete_conn : String → List (String × ℕ) → List (String × ℕ)
delete_conn node_id [] = []
delete_conn node_id ((n, ref) ∷ conns) =
    let rest = delete_conn node_id conns in if str_eq n node_id then rest else (n, ref) ∷ rest

unfoldable pub get : String → Hub → Option ℕ
get node_id h = lookup_conn node_id h.conns

abbrev pub node_of : ℕ → Hub → String
node_of ref h = (h.sockets ref).node_id

-- What happens to one connection.
unfoldable pub update_conn : ℕ → (Conn → Conn) → Hub → Hub
update_conn ref f h = record h { sockets = λ r. if r == ref then f (h.sockets r) else h.sockets r }

abbrev pub is_ref : ℕ → Option ℕ → Bool
is_ref ref none = false
is_ref ref (some r) = r == ref

-- The connection that another one displaces.
unfoldable pub previous_conn : ℕ → Option ℕ → Option ℕ
previous_conn ref none = none
previous_conn ref (some old) = if old == ref then none else some old

-- `Register` up to the release of its lock, with the connection that it closes after that.
unfoldable pub register_conn : ℕ → Hub → Option ℕ × Hub
register_conn ref h = (
  previous_conn ref (get (node_of ref h) h),
  record h { conns = (node_of ref h, ref) ∷ delete_conn (node_of ref h) h.conns },
)

-- `Close`.
unfoldable pub close_conn : ℕ → Hub → Hub
close_conn ref h = update_conn ref (shutdown "uplink 连接被主动关闭") h

unfoldable pub remove_conn : ℕ → Hub → Hub
remove_conn ref h =
    if is_ref ref (get (node_of ref h) h)
    then record h { conns = delete_conn (node_of ref h) h.conns }
    else h

-- The start of `Serve`: a new connection, which is not registered yet.
unfoldable pub accept_conn : String → Hub → Hub
accept_conn node_id h = record h {
  sockets = λ r. if r == h.next then new_conn node_id else h.sockets r;
  next = h.next + 1;
}
