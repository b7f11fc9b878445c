-- ===== src/Examples.antt =====
-- Concrete runs of the model, and the theorems at inputs that meet their hypotheses.
mod Server
mod Cache
mod Lockout
mod Token
mod Interceptor
mod Maintenance
mod Event
mod Auth
mod Account
mod Suspension
mod Register
mod Notifications
