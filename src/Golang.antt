-- ===== src/Golang.antt =====
-- What the code uses of Go's packages strings and strconv, on texts. A text is a sequence of
-- characters; bytes that are no UTF-8 do not occur.
pub mod Strings
pub mod Numbers
pub mod Paths
