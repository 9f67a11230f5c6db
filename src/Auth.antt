-- ===== src/Auth.antt =====
-- src/auth and src/user, by which users register, log in and are let through. JSON web tokens and
-- bcrypt stand outside the program.
pub mod Access
pub mod Accounts
mod Examples
pub mod Samples
pub mod Guards
pub mod Tokens
pub mod Users
