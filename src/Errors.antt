-- ===== src/Errors.antt =====
-- liq/errors.py and liorm/errors.py: the exceptions, one constructor for each class that is raised,
-- with the message as data. `value_error`, `index_error`, `key_error`, `type_error`,
-- `runtime_error` and `called_process_error` are Python's own. `out_of_fuel` stands for a loop that does not end.
use lidb.Base.{List}
use lidb.Str.{Text}

pub data ParseReason : Type 0 where
  forbidden_token empty_program unsupported_statement : ParseReason
  invalid_identifier expected_param invalid_literal : Text → ParseReason
  where_clause : ParseReason
  binding_colon : Text → ParseReason
  read_table unclosed_projection order_column_missing limit_missing limit_literal : ParseReason
  unexpected_in_read : Text → ParseReason
  insert_form insert_brace update_form set_clause update_empty : ParseReason
  unexpected_in_update : Text → ParseReason
  delete_table delete_clause : ParseReason

-- The verb of the statement whose where clause has a literal.
pub data CompileReason : Type 0 where
  read_literal update_literal delete_literal : CompileReason

pub data CatalogReason : Type 0 where
  invalid_ident unknown_table : Text → CatalogReason
  unknown_column : Text → Text → CatalogReason

pub data MismatchReason : Type 0 where
  keys_differ : List Text → List Text → MismatchReason
  value_in_sql : Text → MismatchReason

pub data Error : Type 0 where
  parse_error : ParseReason → Error
  compile_error : CompileReason → Error
  catalog_error : CatalogReason → Error
  parameter_mismatch : MismatchReason → Error
  unknown_plan : Text → Error
  capability_denied : Text → Text → Error
  value_error index_error key_error type_error runtime_error out_of_fuel : Error
  called_process_error : Error
