-- ===== src/Auth/Tickets/SingleUse.antt =====
-- A ticket of internal/auth/ticket.go is redeemed at most once, and only while it lives.
use iskele.Common.{
  ℕ, ◌+◌, String, ◌≡◌, ◌≢◌, refl, ◌∙◌, Option, none, some, arith, ltb, lookup, insert, erase_if,
  lookup-insert, lookup-erase, lookup-erase_if, unless, IsTable, insert-IsTable, erase-IsTable,
  erase_if-IsTable, eq_refl, ne→eq_false, if◌then◌else◌,
}
use iskele.Auth.Tickets.{Ticket, TicketStore, is_expired, prune, issue, redeem}

-- The tickets are a map: no value stands twice.
abbrev pub IsStore : TicketStore → Type 0
IsStore s = IsTable (λ value t. Unit {0}) s.tickets

pub issue-IsStore :
    (value : Option String) (now : ℕ) (t : Ticket) (s : TicketStore)
    → IsStore s
    → IsStore (issue value now t s).0
unfolding issue
issue-IsStore none now t s h = h
issue-IsStore (some value) now t s h =
    erase_if-IsTable _ (is_expired now) _ (insert-IsTable _ value _ s.tickets tt h)

pub redeem-IsStore :
    (value : String) (now : ℕ) (s : TicketStore) → IsStore s → IsStore (redeem value now s).0
unfolding redeem
redeem-IsStore value now s h = ground (arith, h, erase-IsTable (λ k t. Unit {0}) value s.tickets h)

-- A ticket redeemed, live or expired, is gone: the second time it is refused, at any instant.
pub redeem_once :
    (value : String) (now later : ℕ) (s : TicketStore)
    → (redeem value later (redeem value now s).0).1 ≡ none
unfolding redeem
redeem_once value now later s = ground (arith, lookup-erase value value s.tickets, eq_refl value)

-- What was issued is redeemed as it was issued, with its expiry, by any instant up to that expiry,
-- and refused afterwards.
pub redeem-issue :
    (value : String) (now later : ℕ) (t : Ticket) (s : TicketStore)
    → IsStore s
    → value ≢ ""
    → (redeem value later (issue (some value) now t s).0).1
      ≡ (if ltb (now + s.ttl) later then none else some (record t { expires_at = now + s.ttl }))
unfolding redeem issue prune
redeem-issue value now later t s h ne =
    let issued = record t { expires_at = now + s.ttl } in
    let found : lookup value (erase_if (is_expired now) (insert value issued s.tickets))
        ≡ some issued =
      lookup-erase_if (λ k u. Unit {0}) (is_expired now) value _
        (insert-IsTable _ value issued s.tickets tt h)
      ∙ rw (lookup-insert, eq_refl) (ground arith) in
    rw (ne→eq_false value "" ne, found) refl

-- Issuing a ticket sweeps away the expired ones and no other.
pub lookup-issue :
    (value other : String) (now : ℕ) (t : Ticket) (s : TicketStore)
    → IsStore s
    → value ≢ other
    → lookup other (issue (some value) now t s).0.tickets
      ≡ unless (is_expired now) (lookup other s.tickets)
unfolding issue prune
lookup-issue value other now t s h ne =
    let issued = record t { expires_at = now + s.ttl } in
    lookup-erase_if (λ k u. Unit {0}) (is_expired now) other _
      (insert-IsTable _ value issued s.tickets tt h)
    ∙ rw (lookup-insert, ne→eq_false value other ne) refl
