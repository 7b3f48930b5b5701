-- ===== src/Examples.antt =====
-- Runs of the models on concrete inputs, one module per component.
mod Documents
mod Requests
mod Stored
mod Governed
mod Executed
mod Working
mod Accessed
mod Learned
mod Looping
mod Queueing
mod Economic
mod Studied
