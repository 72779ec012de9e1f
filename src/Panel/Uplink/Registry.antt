-- ===== src/Panel/Uplink/Registry.antt =====
-- The entries of the hub, and what a registration does to them.
use ladder_airport.Base.{
  ◌==◌, if◌then◌else◌, ℕ, String, ◌≡◌, true, false, Option, none, some, List, [], ◌∷◌, arith,
  str_eq, str_eq_iff,
}
use ladder_airport.Panel.Uplink.{Conn, shutdown}
use ladder_airport.Panel.Uplink.Hub.{
  Hub, lookup_conn, delete_conn, get, node_of, is_ref, previous_conn, register_conn,
}

pub lookup_conn-delete_conn :
    (n m : String) (conns : List (String × ℕ))
    → lookup_conn m (delete_conn n conns) ≡ (if str_eq n m then none else lookup_conn m conns)
unfolding lookup_conn delete_conn
lookup_conn-delete_conn n m [] = ground arith
lookup_conn-delete_conn n m ((k, ref) ∷ conns) =
    ground
      (arith, lookup_conn-delete_conn n m conns, str_eq_iff k n, str_eq_iff k m, str_eq_iff n m)

pub closed-shutdown : (e : String) (c : Conn) → (shutdown e c).closed ≡ true
unfolding shutdown
closed-shutdown e c = ground arith

pub get-register_conn :
    (ref : ℕ) (m : String) (h : Hub)
    → get m (register_conn ref h).1 ≡ (if str_eq (node_of ref h) m then some ref else get m h)
unfolding register_conn get lookup_conn
get-register_conn ref m h = ground (arith, lookup_conn-delete_conn (node_of ref h) m h.conns)

-- The entry that a registration replaces is closed by it, unless it is its own.
pub previous_conn-some :
    (ref old : ℕ) (o : Option ℕ)
    → o ≡ some old
    → (old == ref) ≡ false
    → previous_conn ref o ≡ some old
unfolding previous_conn
previous_conn-some ref old none is ne = absurd (ground (arith, is))
previous_conn-some ref old (some x) is ne = ground (arith, is, ne)

pub is_ref-true : (ref : ℕ) (o : Option ℕ) → is_ref ref o ≡ true → o ≡ some ref
is_ref-true ref none e = absurd (ground (arith, e))
is_ref-true ref (some r) e = ground (arith, e)
