-- ===== src/Encodings.antt =====
-- util-src/encodings.c: base64 (Base64), the validation of UTF-8 (Utf8), and stringprep and IDNA over
-- libidn (Stringprep) and over ICU (Icu).
pub mod Base64
pub mod Utf8
pub mod Stringprep
pub mod Icu
pub mod Opened
