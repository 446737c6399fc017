-- ===== src/Span/Addresses.antt =====
-- The addresses that a NetDeviceSpan (source/analytics/span.cpp) learns from its events, and compares with.
use columbo.Base.{
  ℕ, ◌≡◌, refl, sym, ◌∙◌, ap, ap₂, append_assoc, append-nil, Bool, true, false, ◌&&◌, not, Option,
  none, some, List, [], ◌∷◌, ◌++◌, ◌==◌, ==→eq, if◌then◌else◌, Bool-cases, inl, inr,
}
use columbo.Span.NetworkEvent.{Network, ArpHeader, IpHeader}
use columbo.Span.NetDevice.{
  NetDeviceSpan, set_and_check_potential_ip, set_and_check_potential_arp, set_and_check,
}

abbrev pub arp_names : Option ArpHeader → List (ℕ × ℕ)
arp_names none = []
arp_names (some header) = (header.src_ip, header.dst_ip) ∷ []

abbrev pub ip_names : Option IpHeader → List (ℕ × ℕ)
ip_names none = []
ip_names (some header) = (header.src_ip, header.dst_ip) ∷ []

-- The pairs of addresses that the headers of an event name.
abbrev pub names : Network → List (ℕ × ℕ)
names n = ip_names n.ip_header ++ arp_names n.arp_header

-- Whether all pairs are the one that is known, or else the first of them.
abbrev pub agrees : Option (ℕ × ℕ) → List (ℕ × ℕ) → Bool
agrees none [] = true
agrees none (p ∷ ps) = agrees (some p) ps
agrees (some q) [] = true
agrees (some q) (p ∷ ps) = (q.0 == p.0 && q.1 == p.1) && agrees (some q) ps

abbrev pub known : NetDeviceSpan → Option (ℕ × ℕ)
known s = if s.ips_set then some (s.src, s.dst) else none

abbrev pub Knows : Option (ℕ × ℕ) → List (ℕ × ℕ) → Type 0
Knows k [] = Unit {0}
Knows k (p ∷ ps) = (k ≡ some p) × Knows k ps

-- What a check of these pairs makes of the span, and whether it finds them the same.
pub record Checks (s : NetDeviceSpan) (ps : List (ℕ × ℕ)) (r : NetDeviceSpan × Bool) : Type 0 where
  pub base : r.0.base ≡ s.base
  pub dev_enq : r.0.dev_enq ≡ s.dev_enq
  pub dev_deq : r.0.dev_deq ≡ s.dev_deq
  pub drop_event : r.0.drop_event ≡ s.drop_event
  pub node : r.0.node ≡ s.node
  pub device : r.0.device ≡ s.device
  pub keeps : (p : ℕ × ℕ) → known s ≡ some p → known r.0 ≡ some p
  pub agree : (qs : List (ℕ × ℕ)) → agrees (known s) (ps ++ qs) ≡ (r.1 && agrees (known r.0) qs)
  pub knows : r.1 ≡ true → Knows (known r.0) ps

no_pair : (s : NetDeviceSpan) → Checks s [] (s, true)
no_pair s = record {
  base = refl;
  dev_enq = refl;
  dev_deq = refl;
  drop_event = refl;
  node = refl;
  device = refl;
  keeps = λ p e. e;
  agree = λ qs. refl;
  knows = λ t. tt;
}

both : (x y : Bool) → (x && y) ≡ true → (x ≡ true) × (y ≡ true)
both true y e = (refl, e)
both false y e = absurd (cc e)

pair_eq : (p q : ℕ × ℕ) → (p.0 == q.0 && p.1 == q.1) ≡ true → some p ≡ some q
pair_eq p q e =
    let (a, b) = both (p.0 == q.0) (p.1 == q.1) e in
    ap some (ap₂ (λ x y. (x, y)) (==→eq p.0 q.0 a) (==→eq p.1 q.1 b))

one_pair :
    (s : NetDeviceSpan) (src dst : ℕ) (is_arp : Bool)
    → Checks s ((src, dst) ∷ []) (
        if not s.ips_set
        then (record s { src = src; dst = dst; ips_set = true; is_arp = is_arp }, true)
        else (s, s.src == src && s.dst == dst))
one_pair s src dst is_arp = elim (Bool-cases s.ips_set) [
  | inr f ↦ rw f (record {
    base = refl;
    dev_enq = refl;
    dev_deq = refl;
    drop_event = refl;
    node = refl;
    device = refl;
    keeps = λ p e. absurd (cc (e));
    agree = λ qs. refl;
    knows = λ t. (refl, tt);
  })
  | inl t ↦ rw t (record {
    base = refl;
    dev_enq = refl;
    dev_deq = refl;
    drop_event = refl;
    node = refl;
    device = refl;
    keeps = λ p e. e;
    agree = λ qs. refl;
    knows = λ e. (pair_eq (s.src, s.dst) (src, dst) e, tt);
  })
]

ip-Checks :
    (s : NetDeviceSpan) (h : Option IpHeader)
    → Checks s (ip_names h) (set_and_check_potential_ip s h)
ip-Checks s none = no_pair s
ip-Checks s (some h) = one_pair s h.src_ip h.dst_ip s.is_arp

arp-Checks :
    (s : NetDeviceSpan) (h : Option ArpHeader)
    → Checks s (arp_names h) (set_and_check_potential_arp s h)
arp-Checks s none = no_pair s
arp-Checks s (some h) = one_pair s h.src_ip h.dst_ip true

Knows-++ :
    (o : Option (ℕ × ℕ)) (ps qs : List (ℕ × ℕ)) → Knows o ps → Knows o qs → Knows o (ps ++ qs)
Knows-++ o [] qs k l = l
Knows-++ o (p ∷ ps) qs (e, k) l = (e, Knows-++ o ps qs k l)

pub Knows-Checks :
    (s : NetDeviceSpan) (ps : List (ℕ × ℕ)) (r : NetDeviceSpan × Bool) (qs : List (ℕ × ℕ))
    → Checks s ps r
    → Knows (known s) qs
    → Knows (known r.0) qs
Knows-Checks s ps r [] c k = tt
Knows-Checks s ps r (q ∷ qs) c (e, k) = (c.keeps q e, Knows-Checks s ps r qs c k)

-- One check after another, if the first one finds the addresses the same.
then-Checks :
    (s : NetDeviceSpan) (ps qs : List (ℕ × ℕ)) (r r' : NetDeviceSpan × Bool)
    → Checks s ps r
    → Checks r.0 qs r'
    → Checks s (ps ++ qs) (if not r.1 then (r.0, false) else r')
then-Checks s ps qs (s', false) r' c d = record {
  base = c.base;
  dev_enq = c.dev_enq;
  dev_deq = c.dev_deq;
  drop_event = c.drop_event;
  node = c.node;
  device = c.device;
  keeps = c.keeps;
  agree = λ us. ap (agrees (known s)) (append_assoc ps qs us) ∙ c.agree (qs ++ us);
  knows = λ t. absurd (cc t);
}
then-Checks s ps qs (s', true) r' c d = record {
  base = d.base ∙ c.base;
  dev_enq = d.dev_enq ∙ c.dev_enq;
  dev_deq = d.dev_deq ∙ c.dev_deq;
  drop_event = d.drop_event ∙ c.drop_event;
  node = d.node ∙ c.node;
  device = d.device ∙ c.device;
  keeps = λ p e. d.keeps p (c.keeps p e);
  agree = λ us. ap (agrees (known s)) (append_assoc ps qs us) ∙ c.agree (qs ++ us) ∙ d.agree us;
  knows = λ t. Knows-++ (known r'.0) ps qs (Knows-Checks s' qs r' ps d (c.knows refl)) (d.knows t);
}

pub set_and_check-Checks :
    (s : NetDeviceSpan) (n : Network) → Checks s (names n) (set_and_check s n)
unfolding set_and_check
set_and_check-Checks s n =
    let r = set_and_check_potential_ip s n.ip_header in
    then-Checks s (ip_names n.ip_header) (arp_names n.arp_header) r _ (ip-Checks s n.ip_header)
      (arp-Checks r.0 n.arp_header)

and_nothing : (b : Bool) (k : Option (ℕ × ℕ)) → (b && agrees k []) ≡ b
and_nothing true none = refl
and_nothing true (some p) = refl
and_nothing false k = refl

-- It succeeds exactly where the event names the addresses that are known, or one pair of addresses.
pub checked-agrees :
    (s : NetDeviceSpan) (ps : List (ℕ × ℕ)) (r : NetDeviceSpan × Bool)
    → Checks s ps r
    → agrees (known s) ps ≡ r.1
checked-agrees s ps r c =
    ap (agrees (known s)) (sym (append-nil ps)) ∙ c.agree [] ∙ and_nothing r.1 (known r.0)
