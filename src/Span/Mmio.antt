-- ===== src/Span/Mmio.antt =====
-- What a HostMmioSpan (source/analytics/span.cpp) can hold.
