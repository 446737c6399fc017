-- ===== src/Span/MmioState.antt =====
-- The states of a HostMmioSpan (source/analytics/span.cpp), and the events that answer an access.
use columbo.Base.{
  ℕ, ◌≡◌, refl, Bool, true, false, ◌&&◌, ◌||◌, not, Option, none, some, [], ◌∷◌, ◌==◌, arith,
  if◌then◌else◌, Bool-cases, inl, inr,
}
use columbo.Span.{EventType, Event, is_type}
use columbo.Span.Host.{HostMmioSpan, new_host_mmio}

abbrev pub reads : Event → Bool
reads e = is_type e EventType.host_mmio_r

abbrev pub issues : Event → Bool
issues e = is_type e EventType.host_mmio_w || reads e

abbrev pub is_response : Event → Bool
is_response e = is_type e EventType.host_mmio_im_resp_po_w

abbrev pub is_completion : Event → Bool
is_completion e = is_type e EventType.host_mmio_cw || is_type e EventType.host_mmio_cr

-- A posted write is answered at once; an access to the device (bar 0) is completed, a write by a write's
-- completion and a read by a read's.
abbrev pub responds : Event → Event → Bool
responds x e = not (reads x) && (x.is_posted && x.timestamp == e.timestamp)

abbrev pub finishes : Event → Event → Bool
finishes x e =
    x.bar == 0
    && ((if is_type e EventType.host_mmio_cw then not (reads x) else reads x) && x.id == e.id)

abbrev pub answers : Event → Event → Bool
answers x e =
    if is_response e then responds x e else if is_completion e then finishes x e else false

abbrev pub issued_span : Event → Bool → Bool → Bool → HostMmioSpan
issued_span x read posted pending = record {
  base = record { events = x ∷ []; is_pending = pending };
  issue = some x;
  is_read = read;
  is_posted = posted;
  bar_number = x.bar;
  im_mmio_resp = none;
  completion = none;
}

abbrev pub answered_span : Event → Event → Bool → Bool → Option Event → Option Event → HostMmioSpan
answered_span x y read posted response completion = record {
  base = record { events = x ∷ y ∷ []; is_pending = false };
  issue = some x;
  is_read = read;
  is_posted = posted;
  bar_number = x.bar;
  im_mmio_resp = response;
  completion = completion;
}

-- The states of a HostMmioSpan: empty, a read, which is complete at once if it is not to the device, a write, and
-- an access with its answer.
pub data HostMmioState (bar : ℕ) : HostMmioSpan → Type 0 where
  empty : HostMmioState bar (new_host_mmio bar)
  reading :
      (x : Event)
      → reads x ≡ true
      → (x.bar == 0) ≡ true
      → HostMmioState bar (issued_span x true false true)
  read_elsewhere :
      (x : Event)
      → reads x ≡ true
      → (x.bar == 0) ≡ false
      → HostMmioState bar (issued_span x true false false)
  writing :
      (x : Event) (posted : Bool)
      → issues x ≡ true
      → reads x ≡ false
      → x.is_posted ≡ posted
      → HostMmioState bar (issued_span x false posted true)
  responded :
      (x y : Event)
      → issues x ≡ true
      → is_response y ≡ true
      → responds x y ≡ true
      → HostMmioState bar (answered_span x y false true (some y) none)
  finished :
      (x y : Event) (read posted : Bool)
      → issues x ≡ true
      → reads x ≡ read
      → is_completion y ≡ true
      → finishes x y ≡ true
      → HostMmioState bar (answered_span x y read posted none (some y))

-- The types exclude each other.
pub no_answer : (x e : Event) → issues e ≡ true → false ≡ answers x e
unfolding is_type
no_answer x e c = ground (arith, c)

pub completion_answers : (x e : Event) → is_completion e ≡ true → answers x e ≡ finishes x e
unfolding is_type
completion_answers x e c = ground (arith, c)

pub elsewhere : (x e : Event) → reads x ≡ true → (x.bar == 0) ≡ false → answers x e ≡ false
elsewhere x e r b =
    rw (r, b)
      (elim (Bool-cases (is_response e)) [
        | inl t ↦ rw t refl
        | inr f ↦
            rw f (elim (Bool-cases (is_completion e)) [ inl t ↦ rw t refl | inr n ↦ rw n refl ])
      ])

pub idle : (x e : Event) → is_response e ≡ false → is_completion e ≡ false → false ≡ answers x e
idle x e r c = rw (r, c) refl
