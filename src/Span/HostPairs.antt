-- ===== src/Span/HostPairs.antt =====
-- The spans of a host (source/analytics/span.cpp) that are complete with a first event and one that answers it.
use columbo.Base.{◌≡◌, Option, some, List}
use columbo.Span.{Event}
use columbo.Span.Host.{
  new_host_int, add_to_host_int, new_host_pci, add_to_host_pci, new_host_msix, add_to_host_msix,
}
use columbo.Span.Feed.{feed}
use columbo.Span.Pairs.{pair_next, posts, clears, HostIntState, host_int-HostIntState}
use columbo.Span.Pci.{accesses, configures, HostPciState, host_pci-HostPciState}
use columbo.Span.Msix.{interrupts, completes_none, HostMsixState, host_msix-HostMsixState}

-- Whatever events a new HostIntSpan, HostPciSpan or HostMsixSpan was offered, it is empty, or pending with a first
-- event, or complete with that and the one that answers it: a posted interrupt and a cleared one; an access to
-- the configuration space and an event of the device that reads exactly if the access does; an interrupt and the
-- completion of an access with the id 0. It takes an event exactly if that is the next of these and of the same
-- parser.
pub pair_spans :
    (events : List (Option Event)) (e : Event)
    → let int = feed add_to_host_int new_host_int events in
      let pci = feed add_to_host_pci new_host_pci events in
      let msix = feed add_to_host_msix new_host_msix events in
      (HostIntState int
        × ((add_to_host_int int (some e)).1 ≡ pair_next posts clears int.base.events e))
      × (HostPciState pci
          × ((add_to_host_pci pci (some e)).1 ≡ pair_next accesses configures pci.base.events e))
      × (HostMsixState msix
          × ((add_to_host_msix msix (some e)).1
              ≡ pair_next interrupts completes_none msix.base.events e))
pair_spans events e = (
  host_int-HostIntState events e,
  host_pci-HostPciState events e,
  host_msix-HostMsixState events e,
)
