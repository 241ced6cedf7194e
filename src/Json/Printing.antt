-- ===== src/Json/Printing.antt =====
-- `json.dumps`, with its default separators and `ensure_ascii`, of any value. A `float` is kept as
-- its text.
use adversarial_cognition.Prelude.{String, ◌<>◌, true, false}
use adversarial_cognition.Json.{quote, show_int}
use adversarial_cognition.Json.Value.{
  Value, null, truth, integer, real, text, array, object, Values, done, item, Members, end, member,
}

unfoldable mutual
  unfolding quote show_int

  pub print : Value → String
  print null = "null"
  print (truth true) = "true"
  print (truth false) = "false"
  print (integer n) = show_int n
  print (real s) = s
  print (text s) = quote s
  print (array vs) = "[" <> print_values vs
  print (object ms) = "{" <> print_members ms

  pub print_values : Values → String
  print_values done = "]"
  print_values (item v done) = print v <> "]"
  print_values (item v (item w vs)) = print v <> (", " <> print_values (item w vs))

  pub print_members : Members → String
  print_members end = "}"
  print_members (member k v end) = quote k <> (": " <> (print v <> "}"))
  print_members (member k v (member l w ms)) =
      quote k <> (": " <> (print v <> (", " <> print_members (member l w ms))))
