-- ===== src/AddrSelect.antt =====
-- internal/addrselect/addrselect.go: destination address selection by RFC 6724.
pub mod Policy
pub mod CommonPrefix
pub mod Order
pub mod Sort
