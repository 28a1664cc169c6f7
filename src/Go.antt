-- ===== src/Go.antt =====
-- What the provider's code uses of the Go language and of its standard library: decimal numbers
-- and `strconv.Atoi`, the values of an `interface{}` with `fmt.Sprintf("%v", v)`, `strings.Split`,
-- `json.Marshal` of a string map, `base64.StdEncoding`, and error values.
pub mod Base64
pub mod Decimal
pub mod Float
pub mod Value
pub mod Split
pub mod Strings
pub mod Json
pub mod Error
pub mod Url
