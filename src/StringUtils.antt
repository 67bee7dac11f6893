-- ===== src/StringUtils.antt =====
-- trunk/src/common/string_utils.cpp: the codes of bytes in URLs and in hexadecimal digits.
mod Defs
mod Digits
mod Url
mod Tests
