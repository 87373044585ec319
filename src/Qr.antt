-- ===== src/Qr.antt =====
-- QR codes of payment links (src/lib/paymentQr.ts).
pub mod Bits
pub mod Version
pub mod Payload
pub mod Numbers
pub mod Bytes
pub mod Lengths
pub mod Reader
pub mod Room
pub mod ReadBack
pub mod Field
pub mod Remainder
