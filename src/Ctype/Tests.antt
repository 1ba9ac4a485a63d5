-- ===== src/Ctype/Tests.antt =====
-- The theorems on character classes at one character each.
