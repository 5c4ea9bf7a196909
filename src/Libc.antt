-- ===== src/Libc.antt =====
-- What the C files use of the C library: `strtok`, `strstr`, `atoi` and the conversion `%d`.
pub mod Tokens
pub mod Decimal
