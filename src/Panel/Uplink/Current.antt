-- ===== src/Panel/Uplink/Current.antt =====
-- Which connections of the hub are open, over the runs of `Serve` of all agents in any order.
use ladder_airport.Base.{
  ◌==◌, Bool-cases, ℕ, ◌<◌, String, ◌≡◌, refl, sym, ap, ◌∙◌, subst, ◌⊎◌, inl, inr, Bool, true,
  false, not, ◌&&◌, ◌||◌, Option, some, arith, str_eq, str_eq_iff, str_eq_refl,
}
use ladder_airport.Panel.Uplink.Registry.{
  lookup_conn-delete_conn, closed-shutdown, get-register_conn, previous_conn-some, is_ref-true,
}
use ladder_airport.Panel.Uplink.{Conn, shutdown}
use ladder_airport.Panel.Uplink.Hub.{
  Hub, new_hub, delete_conn, get, node_of, update_conn, is_ref, previous_conn, register_conn,
  close_conn, remove_conn, accept_conn,
}

-- The hub with the goroutines of `Serve`: the connections that are not registered yet, and those that
-- a registration has displaced and is going to close.
pub record Serving : Type 0 where
  pub hub : Hub
  pub arriving : ℕ → Bool
  pub closing : ℕ → Bool

abbrev pub idle_hub : Serving
idle_hub = record { hub = new_hub; arriving = λ _. false; closing = λ _. false }

abbrev is_some_ref : Option ℕ → ℕ → Bool
is_some_ref o r = is_ref r o

abbrev pub arrive : String → Serving → Serving
arrive node_id s = record {
  hub = accept_conn node_id s.hub;
  arriving = λ r. r == s.hub.next || s.arriving r;
  closing = s.closing;
}

abbrev pub register_one : ℕ → Serving → Serving
register_one ref s = record {
  hub = (register_conn ref s.hub).1;
  arriving = λ r. not (r == ref) && s.arriving r;
  closing = λ r. is_some_ref (register_conn ref s.hub).0 r || s.closing r;
}

abbrev pub close_one : ℕ → Serving → Serving
close_one ref s = record {
  hub = close_conn ref s.hub;
  arriving = s.arriving;
  closing = λ r. not (r == ref) && s.closing r;
}

abbrev on_hub : (Hub → Hub) → Serving → Serving
on_hub f s = record s { hub = f s.hub }

-- An open connection is the one that the hub has for its node, unless its own registration, or its
-- closing by the registration that displaced it, has not come to its turn.
pub IsCurrent : Serving → Type 0
IsCurrent s =
    (ref : ℕ)
    → ref < s.hub.next
    → (s.hub.sockets ref).closed ≡ false
    → ((s.arriving ref || s.closing ref) ≡ true) ⊎ (get (node_of ref s.hub) s.hub ≡ some ref)

-- A step: an agent connects; its connection is registered; the displaced one is closed; a connection
-- works and stays open; its reader ends and shuts it down; and the handler of a connection that is
-- shut down returns.
pub data HubStep (s : Serving) : Serving → Type 0 where
  connects : (node_id : String) → HubStep s (arrive node_id s)
  registers : (ref : ℕ) → s.arriving ref ≡ true → HubStep s (register_one ref s)
  closes : (ref : ℕ) → s.closing ref ≡ true → HubStep s (close_one ref s)
  works :
      (ref : ℕ) (c : Conn)
      → c.closed ≡ (s.hub.sockets ref).closed
      → c.node_id ≡ node_of ref s.hub
      → HubStep s (on_hub (update_conn ref (λ _. c)) s)
  shuts_down : (ref : ℕ) (e : String) → HubStep s (on_hub (update_conn ref (shutdown e)) s)
  returns : (ref : ℕ) → (s.hub.sockets ref).closed ≡ true → HubStep s (on_hub (remove_conn ref) s)

works-IsCurrent :
    (s : Serving) (ref : ℕ) (c : Conn)
    → c.closed ≡ (s.hub.sockets ref).closed
    → c.node_id ≡ node_of ref s.hub
    → IsCurrent s
    → IsCurrent (on_hub (update_conn ref (λ _. c)) s)
unfolding update_conn IsCurrent get
works-IsCurrent s ref c same_closed same_node cur r live is_open = elim (Bool-cases (r == ref)) [
  | inl same ↦
      let is : r ≡ ref = ground (arith, same) in
      let was_open : (s.hub.sockets r).closed ≡ false =
        ap (λ k. (s.hub.sockets k).closed) is ∙ sym same_closed ∙ ground (arith, same, is_open) in
      elim (cur r live was_open) [
        | inl busy ↦ inl busy
        | inr entry ↦ inr (ground (arith, same, same_node, entry))
      ]
  | inr ne ↦ elim (cur r live (ground (arith, ne, is_open))) [
    | inl busy ↦ inl busy
    | inr entry ↦ inr (ground (arith, ne, entry))
  ]
]

shuts_down-IsCurrent :
    (s : Serving) (ref : ℕ) (e : String) (closing : ℕ → Bool)
    → ((r : ℕ) → (r == ref) ≡ false → closing r ≡ s.closing r)
    → IsCurrent s
    → IsCurrent (record {
      hub = update_conn ref (shutdown e) s.hub;
      arriving = s.arriving;
      closing = closing;
    })
unfolding update_conn IsCurrent get
shuts_down-IsCurrent s ref e closing same_closing cur r live is_open =
    elim (Bool-cases (r == ref)) [
      | inl same ↦ absurd (ground (arith, same, is_open, closed-shutdown e (s.hub.sockets r)))
      | inr ne ↦ elim (cur r live (ground (arith, ne, is_open))) [
        | inl busy ↦ inl (ground (arith, busy, same_closing r ne))
        | inr entry ↦ inr (ground (arith, ne, entry))
      ]
    ]

connects-IsCurrent : (node_id : String) (s : Serving) → IsCurrent s → IsCurrent (arrive node_id s)
unfolding IsCurrent accept_conn get
connects-IsCurrent node_id s cur r live is_open = elim (Bool-cases (r == s.hub.next)) [
  | inl same ↦ inl (ground (arith, same))
  | inr ne ↦ elim (cur r (ground (arith, ne, live)) (ground (arith, ne, is_open))) [
    | inl busy ↦ inl (ground (arith, ne, busy))
    | inr entry ↦ inr (ground (arith, ne, entry))
  ]
]

-- The entry of an open connection after another of its node, or of another node, is registered.
registers-entry :
    (s : Serving) (ref r : ℕ)
    → get (node_of r s.hub) s.hub ≡ some r
    → (r == ref) ≡ false
    → (is_ref r (register_conn ref s.hub).0 ≡ true)
      ⊎ (get (node_of r s.hub) (register_conn ref s.hub).1 ≡ some r)
registers-entry s ref r entry ne =
    elim (Bool-cases (str_eq (node_of ref s.hub) (node_of r s.hub))) [
      | inl same_node ↦
          let is = (str_eq_iff (node_of ref s.hub) (node_of r s.hub)).0 same_node in
          let displaced : previous_conn ref (get (node_of ref s.hub) s.hub) ≡ some r =
            previous_conn-some ref r _ (ap (λ m. get m s.hub) is ∙ entry) ne in
          inl (unfold register_conn in (ground (arith, displaced)))
      | inr other ↦
          inr (get-register_conn ref (node_of r s.hub) s.hub ∙ ground (arith, other, entry))
    ]

registers-IsCurrent : (s : Serving) (ref : ℕ) → IsCurrent s → IsCurrent (register_one ref s)
unfolding IsCurrent register_conn
registers-IsCurrent s ref cur r live is_open = elim (Bool-cases (r == ref)) [
  | inl same ↦
      let is : r ≡ ref = ground (arith, same) in
      let own : get (node_of ref s.hub) (register_conn ref s.hub).1 ≡ some ref =
        get-register_conn ref (node_of ref s.hub) s.hub
        ∙ ground (arith, str_eq_refl (node_of ref s.hub)) in
      inr (subst (λ k. get (node_of k s.hub) (register_conn ref s.hub).1 ≡ some k) (sym is) own)
  | inr ne ↦ elim (cur r live is_open) [
    | inl busy ↦ inl (ground (arith, ne, busy))
    | inr entry ↦ elim (registers-entry s ref r entry ne) [
      | inl displaced ↦ inl (ground (arith, ne, displaced))
      | inr still ↦ inr still
    ]
  ]
]

-- The entry of an open connection is left when the one of a connection that is shut down goes.
entry_left :
    (h : Hub) (ref r : ℕ)
    → (h.sockets ref).closed ≡ true
    → get (node_of ref h) h ≡ some ref
    → (h.sockets r).closed ≡ false
    → get (node_of r h) h ≡ some r
    → get (node_of r h) (record h { conns = delete_conn (node_of ref h) h.conns }) ≡ some r
entry_left h ref r closed own is_open entry =
    elim (Bool-cases (str_eq (node_of ref h) (node_of r h))) [
      | inl same_node ↦
          let is = (str_eq_iff (node_of ref h) (node_of r h)).0 same_node in
          let both : some ref ≡ some r = sym own ∙ ap (λ m. get m h) is ∙ entry in
          let same : ref ≡ r = ground (arith, both) in
          absurd (ground (arith, subst (λ k. (h.sockets k).closed ≡ true) same closed, is_open))
      | inr other ↦
          unfold get in
          (ground
            (arith, other, entry, lookup_conn-delete_conn (node_of ref h) (node_of r h) h.conns))
    ]

returns-IsCurrent :
    (s : Serving) (ref : ℕ)
    → (s.hub.sockets ref).closed ≡ true
    → IsCurrent s
    → IsCurrent (on_hub (remove_conn ref) s)
unfolding IsCurrent
returns-IsCurrent s ref closed cur r =
    elim (Bool-cases (is_ref ref (get (node_of ref s.hub) s.hub))) [
      | inr other ↦
          let same : s.hub ≡ remove_conn ref s.hub =
            unfold remove_conn in (ground (arith, other)) in
          subst
            (λ x.
              r < x.next
              → (x.sockets r).closed ≡ false
              → ((s.arriving r || s.closing r) ≡ true) ⊎ (get (node_of r x) x ≡ some r))
            same (cur r)
      | inl own ↦
          let deleted : Hub = record (s.hub) {
            conns = delete_conn (node_of ref s.hub) s.hub.conns;
          } in
          let same : deleted ≡ remove_conn ref s.hub =
            unfold remove_conn in (ground (arith, own)) in
          subst
            (λ x.
              r < x.next
              → (x.sockets r).closed ≡ false
              → ((s.arriving r || s.closing r) ≡ true) ⊎ (get (node_of r x) x ≡ some r))
            same
            (λ live is_open. elim (cur r live is_open) [
              | inl busy ↦ inl busy
              | inr entry ↦ inr (
                  entry_left s.hub ref r closed
                    (is_ref-true ref (get (node_of ref s.hub) s.hub) own) is_open entry)
            ])
    ]

same_node :
    (h : Hub) (a b : ℕ)
    → get (node_of a h) h ≡ some a
    → get (node_of b h) h ≡ some b
    → str_eq (node_of a h) (node_of b h) ≡ (a == b)
same_node h a b is_a is_b = elim (Bool-cases (a == b)) [
  | inl same ↦
      let is : a ≡ b = ground (arith, same) in
      subst (λ k. str_eq (node_of a h) (node_of k h) ≡ true) is (str_eq_refl (node_of a h))
      ∙ sym same
  | inr ne ↦ elim (Bool-cases (str_eq (node_of a h) (node_of b h))) [
    | inl same ↦
        let is = (str_eq_iff (node_of a h) (node_of b h)).0 same in
        let both : some a ≡ some b = sym is_a ∙ ap (λ m. get m h) is ∙ is_b in
        absurd (ground (arith, both, ne))
    | inr other ↦ other ∙ sym ne
  ]
]

step-IsCurrent : (s s' : Serving) → HubStep s s' → IsCurrent s → IsCurrent s'
step-IsCurrent s _ (connects node_id) cur = connects-IsCurrent node_id s cur
step-IsCurrent s _ (registers ref _) cur = registers-IsCurrent s ref cur
step-IsCurrent s _ (closes ref _) cur =
    unfold close_conn in (shuts_down-IsCurrent s ref _ _ (λ r ne. ground (arith, ne)) cur)
step-IsCurrent s _ (works ref c closed node) cur = works-IsCurrent s ref c closed node cur
step-IsCurrent s _ (shuts_down ref e) cur =
    shuts_down-IsCurrent s ref e s.closing (λ r ne. refl) cur
step-IsCurrent s _ (returns ref closed) cur = returns-IsCurrent s ref closed cur

pub data HubSteps : Serving → Serving → Type 0 where
  stays : (s : Serving) → HubSteps s s
  goes_on : (s s' s'' : Serving) → HubSteps s s' → HubStep s' s'' → HubSteps s s''

steps-IsCurrent : (s s' : Serving) → HubSteps s s' → IsCurrent s → IsCurrent s'
steps-IsCurrent s _ (stays _) cur = cur
steps-IsCurrent s s'' (goes_on _ s' _ ss last) cur =
    step-IsCurrent s' s'' last (steps-IsCurrent s s' ss cur)

-- A connection that is open, registered, and not about to be closed by the one that displaced it.
pub record IsLive (s : Serving) (ref : ℕ) : Type 0 where
  pub accepted : ref < s.hub.next
  pub is_open : (s.hub.sockets ref).closed ≡ false
  pub settled : (s.arriving ref || s.closing ref) ≡ false

live-entry :
    (s : Serving) (ref : ℕ) → IsCurrent s → IsLive s ref → get (node_of ref s.hub) s.hub ≡ some ref
unfolding IsCurrent
live-entry s ref cur l = elim (cur ref l.accepted l.is_open) [
  | inl busy ↦ absurd (ground (arith, busy, l.settled))
  | inr entry ↦ entry
]

-- Whatever agents connect, work, lose their connections and leave, and however their registrations
-- and the closings after them interleave, from the empty hub on: a connection that is open and
-- registered, and that no registration is about to close, is the one that the hub has for its node,
-- and two of these are of the same node only if they are the same.
pub run-IsCurrent :
    (s : Serving) (a b : ℕ)
    → HubSteps idle_hub s
    → IsLive s a
    → IsLive s b
    → (get (node_of a s.hub) s.hub ≡ some a)
      × (get (node_of b s.hub) s.hub ≡ some b)
      × (str_eq (node_of a s.hub) (node_of b s.hub) ≡ (a == b))
run-IsCurrent s a b ss live_a live_b =
    let start : IsCurrent idle_hub =
      unfold IsCurrent in (λ r none_yet _. absurd (unfold new_hub in (omega (arith, none_yet)))) in
    let cur : IsCurrent s = steps-IsCurrent idle_hub s ss start in
    let is_a = live-entry s a cur live_a in
    let is_b = live-entry s b cur live_b in (is_a, is_b, same_node s.hub a b is_a is_b)
